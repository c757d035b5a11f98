-- ===== src/Chat/Psk.antt =====
-- `is_hex_str` and `ChatService::parse_psk_env` of src/app/chat_service.cpp.
use bitchat_clone.Base.{
  ℕ, ◌+◌, ◌-◌, ◌*◌, ◌/◌, ◌%◌, Bool, true, ◌&&◌, List, [], ◌∷◌, Option, none, some, leb, ◌==◌,
  if◌then◌else◌, length,
}
use bitchat_clone.Text.{is_xdigit, is_digit, trim, in_blank_tab}
use bitchat_clone.Chat.{Kdf}

abbrev pub all_xdigit : List ℕ → Bool
all_xdigit [] = true
all_xdigit (c ∷ cs) = is_xdigit c && all_xdigit cs

unfoldable pub is_hex_str : List ℕ → Bool
is_hex_str s = (length s % 2 == 0) && all_xdigit s

-- The value that one character adds to `v` after its shift.
unfoldable pub hex_digit : ℕ → ℕ
hex_digit c =
    if is_digit c
    then c - b'0'
    else if leb b'a' c && leb c b'f'
    then 10 + (c - b'a')
    else if leb b'A' c && leb c b'F'
    then 10 + (c - b'A')
    else 0

-- `v <<= 4` and `v |= digit` twice; a digit has four bits, so `|` is `+`.
unfoldable pub decode_hex : List ℕ → List ℕ
decode_hex (a ∷ b ∷ rest) = ((hex_digit a * 16 + hex_digit b) % 256) ∷ decode_hex rest
decode_hex _ = []

-- `out_of_range` is the exception of `s.substr(npos, …)`.
pub data PskResult : Type 0 where
  key : List ℕ → PskResult
  invalid : PskResult
  out_of_range : PskResult

abbrev pub from_option : Option (List ℕ) → PskResult
from_option none = invalid
from_option (some k) = key k

module _ (K : Kdf) where
  unfoldable pub decode_psk : Option (List ℕ) → PskResult
  decode_psk none = out_of_range
  decode_psk (some s) =
      if is_hex_str s
      then key (decode_hex s)
      else from_option (K.base642bin (length s / 4 * 3 + 3) s)

  -- The argument is the value of the variable, `none` if it is not set.
  unfoldable pub parse_psk_env : Option (List ℕ) → PskResult
  parse_psk_env none = invalid
  parse_psk_env (some []) = invalid
  parse_psk_env (some (c ∷ cs)) = decode_psk (trim in_blank_tab (c ∷ cs))
