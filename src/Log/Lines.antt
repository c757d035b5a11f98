-- ===== src/Log/Lines.antt =====
-- Which lines are printed, and that each is a line.
mod Runs
use bitchat_clone.Base.{
  ℕ, ◌≡◌, refl, ap, ◌∙◌, append-nil, if◌then◌else◌, Bool, true, false, not, List, [], ◌∷◌, ◌++◌,
  Option, none, some, ltb, arith, ◌<◌, ◌≤◌, lt→ltb, ge→ltb,
}
use bitchat_clone.Log.{
  Level, debug, info, warning, error, system, level_number, level_by_name, ends_line, prefix, logf,
}

abbrev pub is_line : Option (List ℕ) → Bool
is_line none = false
is_line (some s) = ends_line s

ends_line-append : (xs ys : List ℕ) → ends_line ys ≡ true → ends_line (xs ++ ys) ≡ true
ends_line-append [] ys h = h
ends_line-append (x ∷ []) [] h = ground arith
ends_line-append (x ∷ []) (y ∷ ys) h = h
ends_line-append (x ∷ z ∷ xs) ys h = ends_line-append (z ∷ xs) ys h

below_system : (lv : Level) → ltb 4 (level_number lv) ≡ false
below_system debug = refl
below_system info = refl
below_system warning = refl
below_system error = refl
below_system system = refl

ended :
    (t : Bool) (formatted : List ℕ)
    → (t ≡ true → ends_line formatted ≡ true)
    → ends_line (formatted ++ (if t then [] else 10 ∷ [])) ≡ true
ended true formatted h = ap ends_line (append-nil formatted) ∙ h refl
ended false formatted h = ends_line-append formatted (10 ∷ []) refl

shown :
    (t : Bool) (line : List ℕ)
    → ends_line line ≡ true
    → is_line (if t then none else some line) ≡ not t
shown true line h = refl
shown false line h = h

line_logged :
    (global_level lv : Level) (ts func fmt formatted : List ℕ)
    → (ends_line fmt ≡ true → ends_line formatted ≡ true)
    → is_line (logf global_level lv ts func fmt formatted)
      ≡ not (ltb (level_number lv) (level_number global_level))
unfolding logf
line_logged global_level lv ts func fmt formatted h =
    shown _ _ (ends_line-append (prefix ts lv func) _ (ended (ends_line fmt) formatted h))

-- Nothing is printed where the level is below the global one; otherwise something is, and it ends in a
-- newline, where the formatted text ends in one whenever the format does.
pub is_line-logf :
    (global_level lv : Level) (ts func fmt formatted : List ℕ)
    → (ends_line fmt ≡ true → ends_line formatted ≡ true)
    → (level_number lv < level_number global_level
        → logf global_level lv ts func fmt formatted ≡ none)
      × (level_number global_level ≤ level_number lv
          → is_line (logf global_level lv ts func fmt formatted) ≡ true)
unfolding logf
is_line-logf global_level lv ts func fmt formatted h = (
  λ low. rw (lt→ltb _ _ low) refl,
  λ high. line_logged global_level lv ts func fmt formatted h ∙ ap not (ge→ltb _ _ high),
)

-- Whatever name sets the level, a SYSTEM line is printed and ends in a newline, where the formatted
-- text ends in one whenever the format does.
pub system_printed :
    (name ts func fmt formatted : List ℕ)
    → (ends_line fmt ≡ true → ends_line formatted ≡ true)
    → is_line (logf (level_by_name name) system ts func fmt formatted) ≡ true
system_printed name ts func fmt formatted h =
    line_logged (level_by_name name) system ts func fmt formatted h
    ∙ ap not (below_system (level_by_name name))
