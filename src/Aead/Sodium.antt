-- ===== src/Aead/Sodium.antt =====
-- class SodiumPskAead of src/crypto/psk_aead.cpp. XChaCha20-Poly1305 itself is libsodium's: it is
-- the parameter `Primitives`, and `IsLawful` says what libsodium documents of it.
use bitchat_clone.Base.{
  ℕ, zero, suc, ◌+◌, ◌≡◌, Bool, true, false, List, ◌++◌, Option, none, some, ltb, ◌==◌,
  if◌then◌else◌, length, take, drop, replicate, get_or, set, ◌%◌,
}
use bitchat_clone.Aead.{SessionKeys, PskAead, key_size, nonce_size, tag_size}

-- The arguments are the key, the nonce, the associated data and the text; `none` is a result other
-- than 0. `hex2bin` has the capacity and the text.
pub record Primitives : Type 0 where
  pub encrypt : List ℕ → List ℕ → List ℕ → List ℕ → Option (List ℕ)
  pub decrypt : List ℕ → List ℕ → List ℕ → List ℕ → Option (List ℕ)
  pub hex2bin : ℕ → List ℕ → Option (List ℕ)

-- Decryption inverts encryption under the same key, nonce and data, and the tag makes a ciphertext 16
-- bytes longer than its text.
pub record IsLawful (P : Primitives) : Type 0 where
  pub decrypt-encrypt :
      (k n ad m c : List ℕ) → P.encrypt k n ad m ≡ some c → P.decrypt k n ad c ≡ some m
  pub length-encrypt :
      (k n ad m c : List ℕ) → P.encrypt k n ad m ≡ some c → length c ≡ length m + 16

-- What is encrypted under the first key fails verification under the second: for these two keys no tag
-- is a forgery. It is not a law of the cipher, for which this is only overwhelmingly likely.
abbrev pub Apart : Primitives → List ℕ → List ℕ → Type 0
Apart P k k' = (n ad m c : List ℕ) → P.encrypt k n ad m ≡ some c → P.decrypt k' n ad c ≡ none

pub record Cipher : Type 0 where
  pub key : List ℕ
  pub have_session : Bool
  pub key_tx : List ℕ
  pub key_rx : List ℕ
  pub nonce_tx : List ℕ
  pub nonce_rx : List ℕ

unfoldable pub new_cipher : List ℕ → Cipher
new_cipher key = record {
  key = key;
  have_session = false;
  key_tx = replicate key_size 0;
  key_rx = replicate key_size 0;
  nonce_tx = replicate nonce_size 0;
  nonce_rx = replicate nonce_size 0;
}

-- `memcpy` and `sodium_memzero` fill whole arrays.
unfoldable pub set_session : Cipher → Option SessionKeys → Cipher × Bool
set_session s none = (
  record s {
    have_session = false;
    key_tx = replicate key_size 0;
    key_rx = replicate key_size 0;
    nonce_tx = replicate nonce_size 0;
    nonce_rx = replicate nonce_size 0;
  },
  true,
)
set_session s (some k) = (
  record s {
    have_session = true;
    key_tx = take key_size k.ke_c2p;
    key_rx = take key_size k.ke_p2c;
    nonce_tx = take nonce_size k.n24_c2p;
    nonce_rx = take nonce_size k.n24_p2c;
  },
  true,
)

-- The loop of `nonce_inc_24` on the positions below `i`, from the last down.
inc_loop : ℕ → List ℕ → List ℕ
inc_loop zero n = n
inc_loop (suc i) n =
    let b = (get_or n i 0 + 1) % 256 in
    let rest = inc_loop i (set n i b) in if b == 0 then rest else set n i b

unfoldable pub nonce_inc_24 : List ℕ → List ℕ
unfolding inc_loop
nonce_inc_24 n = inc_loop nonce_size n

abbrev pub prepend : List ℕ → Option (List ℕ) → Option (List ℕ)
prepend front none = none
prepend front (some back) = some (front ++ back)

abbrev pub or_else : Option (List ℕ) → Option (List ℕ) → Option (List ℕ)
or_else none next = next
or_else (some m) next = some m

module _ (P : Primitives) where
  open P use {encrypt, decrypt, hex2bin}

  abbrev pub checked_key : Option (List ℕ) → Option Cipher
  checked_key none = none
  checked_key (some out) = if length out == key_size then some (new_cipher out) else none

  -- The argument is the value of the variable that is asked for, `none` if it is not set.
  unfoldable pub check_and_init_from_env : Option (List ℕ) → Option Cipher
  check_and_init_from_env none = none
  check_and_init_from_env (some s) = checked_key (hex2bin key_size s)

  abbrev pub sending_key : Cipher → List ℕ
  sending_key s = if s.have_session then s.key_tx else s.key

  unfoldable pub seal : Cipher → List ℕ → List ℕ → List ℕ → Option (List ℕ)
  seal s msg ad random = prepend random (encrypt (sending_key s) random ad msg)

  -- The session's key first, and the fixed key where that fails or there is no session.
  unfoldable pub unseal : Cipher → List ℕ → List ℕ → Option (List ℕ)
  unseal s sealed ad =
      let npub = take nonce_size sealed in
      let c = drop nonce_size sealed in
      let first = if s.have_session then decrypt s.key_rx npub ad c else none in
      if ltb (length sealed) (nonce_size + tag_size)
      then none
      else or_else first (decrypt s.key npub ad c)

  abbrev pub sodium_aead : PskAead
  sodium_aead = record { Cipher = Cipher; seal = seal; unseal = unseal; set_session = set_session }
