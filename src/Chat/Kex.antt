-- ===== src/Chat/Kex.antt =====
-- The key exchange of src/app/chat_service.cpp: `derive_and_install` and `maybe_kex`.
use bitchat_clone.Base.{
  ℕ, Bool, not, ◌||◌, List, [], ◌∷◌, ◌++◌, Option, none, some, if◌then◌else◌, take,
}
use bitchat_clone.Text.{codes}
use bitchat_clone.Aead.{PskAead, SessionKeys}
use bitchat_clone.Chat.{ChatService, Kdf}
use bitchat_clone.Chat.Psk.{PskResult, key, invalid, out_of_range, parse_psk_env}

abbrev pub ctx_ke_c2p : List ℕ
ctx_ke_c2p = codes "bcKC2P1"

abbrev pub ctx_ke_p2c : List ℕ
ctx_ke_p2c = codes "bcKP2C1"

abbrev pub ctx_n_c2p : List ℕ
ctx_n_c2p = codes "bcNC2P1"

abbrev pub ctx_n_p2c : List ℕ
ctx_n_p2c = codes "bcNP2C1"

infixl 5 ◌>>=◌
abbrev ◌>>=◌ {ℓ κ} : {A : Type ℓ} {B : Type κ} → Option A → (A → Option B) → Option B
none >>= f = none
some a >>= f = f a

-- The central's random bytes and then the peripheral's, on both sides.
abbrev pub key_material : Bool → List ℕ → List ℕ → List ℕ
key_material is_central na peer_na =
    if is_central then take 32 na ++ take 32 peer_na else take 32 peer_na ++ take 32 na

-- The peripheral sends with the keys that the central receives with.
abbrev pub local_keys : Bool → SessionKeys → SessionKeys
local_keys is_central keys = if is_central then keys else record {
  ke_c2p = keys.ke_p2c;
  ke_p2c = keys.ke_c2p;
  n24_c2p = keys.n24_p2c;
  n24_p2c = keys.n24_c2p;
}

-- The key that `derive_and_install` and `start` go by. An exception of `parse_psk_env` has ended
-- `start` already, with the same variable.
abbrev pub usable : PskResult → Option (List ℕ)
usable (key []) = none
usable (key (c ∷ cs)) = some (c ∷ cs)
usable invalid = none
usable out_of_range = none

module _ (K : Kdf) where
  open K use {extract, expand}

  -- HKDF-Extract and the four calls of HKDF-Expand, in order; `none` where one fails.
  unfoldable pub derive_keys : List ℕ → List ℕ → Option SessionKeys
  derive_keys psk ikm = do
    prk ← extract psk ikm
    a ← expand prk ctx_ke_c2p 32
    b ← expand prk ctx_ke_p2c 32
    c ← expand prk ctx_n_c2p 24
    d ← expand prk ctx_n_p2c 24
    some (record { ke_c2p = a; ke_p2c = b; n24_c2p = c; n24_p2c = d })

module _ (K : Kdf) (A : PskAead) where
  open A use {Cipher, set_session}

  abbrev pub install : ChatService Cipher → Option SessionKeys → ChatService Cipher
  install s none = s
  install s (some keys) =
      let (aead, ok) = set_session s.aead (some (local_keys s.is_central keys)) in
      record s { aead = aead; aead_on = ok || s.aead_on }

  abbrev pub keys_for : ChatService Cipher → Option (List ℕ) → Option SessionKeys
  keys_for s none = none
  keys_for s (some psk) = derive_keys K psk (key_material s.is_central s.na32 s.peer_na32)

  unfoldable pub derive_and_install : Option (List ℕ) → ChatService Cipher → ChatService Cipher
  derive_and_install env_psk s = install s (keys_for s (usable (parse_psk_env K env_psk)))

  unfoldable pub maybe_kex : Option (List ℕ) → ChatService Cipher → ChatService Cipher
  maybe_kex env_psk s =
      if not s.local_has_psk || not s.peer_has_psk
      then s
      else if not s.have_na_local || not s.have_na_peer
      then s
      else if s.aead_on
      then s
      else derive_and_install env_psk s
