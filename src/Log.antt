-- ===== src/Log.antt =====
-- The levels of include/util/log.hpp and what `logf` prints. The time and the formatting of the
-- arguments are the system's.
mod Lines
use bitchat_clone.Base.{
  ℕ, ◌+◌, ◌-◌, Bool, true, false, not, ◌||◌, List, [], ◌∷◌, ◌++◌, Option, none, some, if◌then◌else◌,
  ltb, ◌==◌,
}
use bitchat_clone.Text.{codes, str_eq}

pub data Level : Type 0 where
  debug : Level
  info : Level
  warning : Level
  error : Level
  system : Level

abbrev pub level_number : Level → ℕ
level_number debug = 0
level_number info = 1
level_number warning = 2
level_number error = 3
level_number system = 4

-- The level that `set_log_level_by_name` sets.
unfoldable pub level_by_name : List ℕ → Level
level_by_name level =
    if str_eq level (codes "debug") || str_eq level (codes "DEBUG")
    then debug
    else if str_eq level (codes "info") || str_eq level (codes "INFO")
    then info
    else if str_eq level (codes "warn")
        || str_eq level (codes "warning")
        || str_eq level (codes "WARN")
        || str_eq level (codes "WARNING")
    then warning
    else if str_eq level (codes "error")
        || str_eq level (codes "err")
        || str_eq level (codes "ERROR")
        || str_eq level (codes "ERR")
    then error
    else info

abbrev pub level_name : Level → List ℕ
level_name debug = codes "[DEBUG]"
level_name info = codes "[INFO]"
level_name warning = codes "[WARN]"
level_name error = codes "[ERROR]"
level_name system = codes "[SYSTEM]"

-- Whether the last byte is a newline.
abbrev pub ends_line : List ℕ → Bool
ends_line [] = false
ends_line (c ∷ []) = c == 10
ends_line (c ∷ d ∷ rest) = ends_line (d ∷ rest)

-- What is printed before the text.
abbrev pub prefix : List ℕ → Level → List ℕ → List ℕ
prefix ts lv func = ts ++ (codes " " ++ (level_name lv ++ (codes " " ++ (func ++ codes ": "))))

-- What goes to stderr, `none` if the level is below the global one: `formatted` is what `vfprintf`
-- prints.
unfoldable pub logf : Level → Level → List ℕ → List ℕ → List ℕ → List ℕ → Option (List ℕ)
logf global_level lv ts func fmt formatted =
    if ltb (level_number lv) (level_number global_level)
    then none
    else some (prefix ts lv func ++ (formatted ++ (if ends_line fmt then [] else 10 ∷ [])))
