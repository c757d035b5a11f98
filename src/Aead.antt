-- ===== src/Aead.antt =====
-- include/crypto/psk_aead.hpp and src/crypto/psk_aead.cpp: sealed messages are a nonce of 24 bytes,
-- the ciphertext and a tag of 16 bytes.
pub mod Noop
pub mod Sodium
pub mod Opening
pub mod Runs
use bitchat_clone.Base.{ℕ, Bool, List, Option}

abbrev pub key_size : ℕ
key_size = 32

abbrev pub nonce_size : ℕ
nonce_size = 24

abbrev pub tag_size : ℕ
tag_size = 16

pub record SessionKeys : Type 0 where
  pub ke_c2p : List ℕ
  pub ke_p2c : List ℕ
  pub n24_c2p : List ℕ
  pub n24_p2c : List ℕ

-- class PskAead. A sealing call is given the random bytes that it draws for the nonce.
-- `none` is `return false`. The arguments of `seal` are the message, the associated data and
-- those bytes.
pub record PskAead : Type 1 where
  pub Cipher : Type 0
  pub seal : Cipher → List ℕ → List ℕ → List ℕ → Option (List ℕ)
  pub unseal : Cipher → List ℕ → List ℕ → Option (List ℕ)
  pub set_session : Cipher → Option SessionKeys → Cipher × Bool
