-- ===== src/Log/Lines/Runs.antt =====
-- A line of the level SYSTEM, and one that is dropped.
use bitchat_clone.Base.{ℕ, ◌<◌, ◌≤◌, ◌≡◌, refl, true, List, [], ◌∷◌, ◌++◌, none}
use bitchat_clone.Text.{codes}
use bitchat_clone.Log.{info, debug, error, system, level_by_name, logf}
use bitchat_clone.Log.Lines.{is_line, is_line-logf, system_printed}

system_printed_example :
    is_line (
      logf
        (level_by_name (codes "ERROR"))
        system
        (codes "10:00:00.000")
        (codes "main")
        (codes "%s")
        (codes "link up"))
    ≡ true
system_printed_example =
    system_printed (codes "ERROR") (codes "10:00:00.000") (codes "main") (codes "%s")
      (codes "link up") (λ h. h)

abbrev line : List ℕ
line = codes "link up" ++ (10 ∷ [])

-- The format ends in a newline, and an ERROR is printed at the level INFO.
is_line-logf_example :
    (3 < 1 → logf info error (codes "10:00:00.000") (codes "main") line line ≡ none)
    × (1 ≤ 3 → is_line (logf info error (codes "10:00:00.000") (codes "main") line line) ≡ true)
is_line-logf_example =
    is_line-logf info error (codes "10:00:00.000") (codes "main") line line (λ h. refl)

debug_dropped : logf (level_by_name (codes "loud")) debug [] [] [] [] ≡ none
unfolding logf level_by_name
debug_dropped = refl
