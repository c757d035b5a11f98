-- ===== src/Mac.antt =====
-- Bluetooth addresses as text: `is_valid_mac` and `normalize_mac`, which src/daemon/main.cpp and
-- src/cli/main.cpp both have (there `to_upper_mac`).
use bitchat_clone.Base.{
  ℕ, ◌+◌, ◌%◌, Bool, true, ◌&&◌, List, [], ◌∷◌, if◌then◌else◌, ◌==◌, length, map,
}
use bitchat_clone.Text.{is_xdigit, to_upper}

-- The loop from index `i` on.
abbrev pub mac_chars : ℕ → List ℕ → Bool
mac_chars i [] = true
mac_chars i (c ∷ cs) = (if i % 3 == 2 then c == b':' else is_xdigit c) && mac_chars (i + 1) cs

unfoldable pub is_valid_mac : List ℕ → Bool
is_valid_mac mac = (length mac == 17) && mac_chars 0 mac

abbrev pub to_upper_mac : List ℕ → List ℕ
to_upper_mac s = map to_upper s
