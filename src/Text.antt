-- ===== src/Text.antt =====
-- The C++ string operations that several parts of the program use, over byte strings: the
-- character classes of the C locale, `find_first_not_of`, `find_last_not_of`, `substr` and `==`.
use Prim.Native.Char.{code}
use Prim.Native.String.{String}
use mathlib.Core.Option
use mathlib.Core.Path.{ap₂}
use bitchat_clone.Base.{
  ℕ, suc, ◌+◌, ◌-◌, ◌≡◌, refl, Bool, true, false, ◌&&◌, ◌||◌, List, [], ◌∷◌, Option, none, some,
  leb, ◌==◌, ==_iff, both_true, if◌then◌else◌, take, drop, arith,
}

-- The bytes of an ASCII text.
abbrev pub codes : String → List ℕ
codes String.[] = []
codes (String.◌∷◌ c s) = code c ∷ codes s

abbrev pub is_digit : ℕ → Bool
is_digit c = leb b'0' c && leb c b'9'

abbrev pub is_lower : ℕ → Bool
is_lower c = leb b'a' c && leb c b'z'

abbrev pub is_upper : ℕ → Bool
is_upper c = leb b'A' c && leb c b'Z'

unfoldable pub is_xdigit : ℕ → Bool
is_xdigit c = is_digit c || (leb b'a' c && leb c b'f') || (leb b'A' c && leb c b'F')

unfoldable pub is_space : ℕ → Bool
is_space c = (c == 32) || (leb 9 c && leb c 13)

unfoldable pub to_upper : ℕ → ℕ
to_upper c = if is_lower c then c - 32 else c

unfoldable pub to_lower : ℕ → ℕ
to_lower c = if is_upper c then c + 32 else c

-- `a == b` on strings.
abbrev pub str_eq : List ℕ → List ℕ → Bool
str_eq [] [] = true
str_eq (a ∷ as') (b ∷ bs) = (a == b) && str_eq as' bs
str_eq _ _ = false

-- `s.rfind(prefix, 0) == 0`
abbrev pub starts_with : List ℕ → List ℕ → Bool
starts_with [] s = true
starts_with (a ∷ as') (b ∷ bs) = (a == b) && starts_with as' bs
starts_with (a ∷ as') [] = false

-- `none` is `npos`. The argument says which characters are passed over.
unfoldable pub find_first_not_of : (ℕ → Bool) → List ℕ → Option ℕ
find_first_not_of skip [] = none
find_first_not_of skip (c ∷ cs) =
    if skip c then Option.map suc (find_first_not_of skip cs) else some 0

unfoldable pub find_last_not_of : (ℕ → Bool) → List ℕ → Option ℕ
find_last_not_of skip [] = none
find_last_not_of skip (c ∷ cs) = elim (find_last_not_of skip cs) [
  | none ↦ (if skip c then none else some 0)
  | some i ↦ some (suc i)
]

-- `s.substr(pos, count)` for a `pos` within the string.
abbrev pub substr : List ℕ → ℕ → ℕ → List ℕ
substr s pos count = take count (drop pos s)

abbrev pub in_blank_tab : ℕ → Bool
in_blank_tab c = (c == 32) || (c == 9)

abbrev pub in_blank_tab_cr : ℕ → Bool
in_blank_tab_cr c = (c == 32) || (c == 9) || (c == 13)

-- `s.substr(l, r - l + 1)` for two positions found; `none` where there are none.
abbrev pub substr_between : List ℕ → Option ℕ → Option ℕ → Option (List ℕ)
substr_between s (some l) (some r) = some (substr s l (r - l + 1))
substr_between s _ _ = none

-- The part from the first to the last character that is not passed over; `none` if there is none.
unfoldable pub trim : (ℕ → Bool) → List ℕ → Option (List ℕ)
trim skip s = substr_between s (find_first_not_of skip s) (find_last_not_of skip s)

pub str_eq-eq : (a b : List ℕ) → str_eq a b ≡ true → a ≡ b
str_eq-eq [] [] e = refl
str_eq-eq [] (b ∷ bs) e = absurd (cc e)
str_eq-eq (a ∷ as') [] e = absurd (cc e)
str_eq-eq (a ∷ as') (b ∷ bs) e =
    let (h, t) = both_true (a == b) (str_eq as' bs) e in
    ap₂ ◌∷◌ ((==_iff a b).0 h) (str_eq-eq as' bs t)

pub str_eq_refl : (a : List ℕ) → str_eq a a ≡ true
str_eq_refl [] = refl
str_eq_refl (a ∷ as') = ground (arith, (==_iff a a).1 refl, str_eq_refl as')
