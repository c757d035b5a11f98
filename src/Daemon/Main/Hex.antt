-- ===== src/Daemon/Main/Hex.antt =====
-- Bytes spelled in hexadecimal digits, an independent description of what `is_hex_str` and the decoding
-- in `parse_psk_env` of src/app/chat_service.cpp read.
use mathlib.Core.Path.{ap₂}
use bitchat_clone.Base.{
  ℕ, ◌+◌, ◌*◌, ◌%◌, ◌<◌, ◌≤◌, ◌≡◌, ◌⊎◌, inl, inr, refl, true, List, [], ◌∷◌, length, arith,
}
use bitchat_clone.Text.{is_xdigit}
use bitchat_clone.Chat.Psk.{is_hex_str, hex_digit, all_xdigit, decode_hex}

-- The character is a hexadecimal digit of this value.
abbrev pub IsDigit : ℕ → ℕ → Type 0
IsDigit c v =
    ((v < 10) × (c ≡ b'0' + v))
    ⊎ ((10 ≤ v) × (v < 16) × ((c + 10 ≡ b'a' + v) ⊎ (c + 10 ≡ b'A' + v)))

-- The text is these bytes in hexadecimal digits, of either case, the upper half of each first.
abbrev pub Spells : List ℕ → List ℕ → Type 0
Spells [] [] = Unit {0}
Spells (a ∷ b ∷ s) (v ∷ bs) =
    ((hi : ℕ) × (lo : ℕ) × IsDigit a hi × IsDigit b lo × (v ≡ 16 * hi + lo)) × Spells s bs
Spells _ _ = ⊥

digit_lem : (c v : ℕ) → IsDigit c v → (hex_digit c ≡ v) × (is_xdigit c ≡ true) × (v < 16)
unfolding hex_digit is_xdigit
digit_lem c v (inl (small, e)) = (ground arith, ground arith, omega arith)
digit_lem c v (inr (large, hex, inl e)) = (ground arith, ground arith, hex)
digit_lem c v (inr (large, hex, inr e)) = (ground arith, ground arith, hex)

-- What a text that spells bytes is made of.
pub spelled :
    (s bs : List ℕ)
    → Spells s bs
    → (decode_hex s ≡ bs) × (all_xdigit s ≡ true) × (length s ≡ 2 * length bs)
unfolding decode_hex
spelled [] [] h = (refl, refl, refl)
spelled [] (v ∷ bs) h = absurd h
spelled (a ∷ []) [] h = absurd h
spelled (a ∷ []) (v ∷ bs) h = absurd h
spelled (a ∷ b ∷ s) [] h = absurd h
spelled (a ∷ b ∷ s) (v ∷ bs) ((hi, lo, da, db, e), h) =
    let (decoded, digits, size) = spelled s bs h in
    let (va, xa, ha) = digit_lem a hi da in
    let (vb, xb, hb) = digit_lem b lo db in
    (ap₂ ◌∷◌ (omega (arith, va, vb)) decoded, rw (xa, xb) digits, omega (arith, size))

-- It counts as hexadecimal digits.
pub spelled_hex : (s bs : List ℕ) → Spells s bs → is_hex_str s ≡ true
unfolding is_hex_str
spelled_hex s bs h =
    let (_, digits, size) = spelled s bs h in
    let even : length s % 2 ≡ 0 = omega (arith, size) in rw (even, digits) refl
