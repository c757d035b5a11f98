-- ===== src/Chat/Runs.antt =====
-- A central and a peripheral that exchange their HELLOs.
use bitchat_clone.Base.{
  ℕ, ◌≡◌, ◌⊎◌, inl, inr, refl, sym, ap, ◌∙◌, arith, Bool, true, false, List, [], ◌∷◌, ◌++◌, Option,
  none, some, replicate, take,
}
use bitchat_clone.Text.{codes, trim, find_first_not_of, find_last_not_of, is_xdigit}
use bitchat_clone.Aead.{SessionKeys}
use bitchat_clone.Aead.Sodium.{Cipher, set_session, seal, unseal, sodium_aead}
use bitchat_clone.Aead.Runs.{toy_key, toy, toy_laws}
use bitchat_clone.Chat.{ChatService, Kdf}
use bitchat_clone.Chat.Psk.{
  is_hex_str, hex_digit, decode_hex, decode_psk, parse_psk_env, out_of_range,
}
use bitchat_clone.Chat.Kex.{usable, derive_keys, derive_and_install, maybe_kex}
use bitchat_clone.Ctrl.{Parsed, accepted, encode_hello, parse_hello, tlv_loop, take_tlv}
use bitchat_clone.Ctrl.RoundTrip.{parse_hello-encode_hello}
use bitchat_clone.Chat.Receive.{aad, on_rx, take_hello, note_hello}
use bitchat_clone.Chat.Agreement.{Waits, met, hello_from, hellos_open}
use bitchat_clone.Chat.Session.{Event, receives, round, sends, run}
use bitchat_clone.Chat.Keys.{IsKeyed, Heard, run-IsKeyed}

-- HKDF that always gives the toy's key.
abbrev pub kdf : Kdf
kdf = record {
  base642bin = λ cap s. none;
  extract = λ salt ikm. some ikm;
  expand = λ prk ctx n. some toy_key;
}

abbrev pub service : Bool → List ℕ → ChatService Cipher
service central na = record {
  aead = record {
    key = toy_key;
    have_session = false;
    key_tx = [];
    key_rx = [];
    nonce_tx = [];
    nonce_rx = [];
  };
  rx = [];
  mtu_payload = 100;
  next_id = 1;
  tail_enabled = true;
  ctrl_hello_enabled = true;
  hello_stop = false;
  hello_sent = false;
  local_user = codes "ann";
  local_caps = 1;
  na32 = na;
  peer_user = [];
  peer_caps = 0;
  peer_na32 = replicate 32 0;
  is_central = central;
  local_has_psk = true;
  peer_has_psk = false;
  aead_on = false;
  have_na_local = true;
  have_na_peer = false;
}

abbrev ann : ChatService Cipher
ann = service true (replicate 32 3)

abbrev bob : ChatService Cipher
bob = service false (replicate 32 4)

ann-Waits : Waits ann true
ann-Waits = record {
  role = refl;
  psk = refl;
  caps = refl;
  na_ready = refl;
  na_size = refl;
  off = refl;
  hello_on = refl;
}

bob-Waits : Waits bob false
bob-Waits = record {
  role = refl;
  psk = refl;
  caps = refl;
  na_ready = refl;
  na_size = refl;
  off = refl;
  hello_on = refl;
}

-- The text " 0aFF" of the environment.
abbrev pub psk_text : Option (List ℕ)
psk_text = some (codes " 0aFF")

pub psk_bytes : usable (parse_psk_env kdf psk_text) ≡ some (10 ∷ 255 ∷ [])
unfolding parse_psk_env decode_psk trim find_first_not_of find_last_not_of is_hex_str is_xdigit
    decode_hex hex_digit
psk_bytes = refl

abbrev pub keys : SessionKeys
keys = record { ke_c2p = toy_key; ke_p2c = toy_key; n24_c2p = toy_key; n24_p2c = toy_key }

keys_lem : derive_keys kdf (10 ∷ 255 ∷ []) (take 32 ann.na32 ++ take 32 bob.na32) ≡ some keys
unfolding derive_keys
keys_lem = refl

-- A text of blanks only ends in the exception of `substr`.
blank_psk : parse_psk_env kdf (some (codes "  ")) ≡ out_of_range
unfolding parse_psk_env decode_psk trim find_first_not_of find_last_not_of
blank_psk = refl

abbrev events : List Event
events = round false true (replicate 32 5) (λ f. true) ∷ receives (hello_from bob) ∷ sends ∷ []

-- Nothing, or what Bob sent.
abbrev FromBob : List ℕ → Type 0
FromBob n = (n ≡ replicate 32 0) ⊎ (n ≡ replicate 32 4)

abbrev nonce_of : Parsed → List ℕ
nonce_of (accepted h) = take 32 h.na32
nonce_of _ = []

bob-Heard : Heard kdf (sodium_aead toy) psk_text FromBob (hello_from bob)
bob-Heard h e on = inr (
    ap nonce_of
      (sym e ∙ parse_hello-encode_hello (codes "ann") 1 (some bob.na32) (omega arith) refl))

ann-IsKeyed : IsKeyed kdf (sodium_aead toy) psk_text FromBob ann
ann-IsKeyed = record {
  flags = record { local_psk = λ e. refl; local_na = λ e. refl; peer_na = λ e. absurd (cc e) };
  proven = (inl refl, λ e. absurd (cc e));
}

run-IsKeyed_example :
    IsKeyed kdf (sodium_aead toy) psk_text FromBob (run kdf (sodium_aead toy) psk_text ann events)
run-IsKeyed_example =
    run-IsKeyed kdf (sodium_aead toy) psk_text FromBob ann events (inl refl)
      (tt, (bob-Heard, (tt, tt))) ann-IsKeyed

abbrev sealed_hi : List ℕ
sealed_hi = replicate 24 1 ++ (replicate 16 9 ++ codes "hi")

ann_seals :
    seal toy (met toy kdf psk_text ann bob).aead (codes "hi") aad (replicate 24 1) ≡ some sealed_hi
unfolding seal on_rx take_hello note_hello maybe_kex derive_and_install derive_keys parse_psk_env
    decode_psk trim find_first_not_of find_last_not_of is_hex_str is_xdigit decode_hex hex_digit
    encode_hello parse_hello tlv_loop take_tlv set_session
ann_seals = refl

bob_seals :
    seal toy (met toy kdf psk_text bob ann).aead (codes "hi") aad (replicate 24 1) ≡ some sealed_hi
unfolding seal on_rx take_hello note_hello maybe_kex derive_and_install derive_keys parse_psk_env
    decode_psk trim find_first_not_of find_last_not_of is_hex_str is_xdigit decode_hex hex_digit
    encode_hello parse_hello tlv_loop take_tlv set_session
bob_seals = refl

hellos_open_example :
    (unseal toy (met toy kdf psk_text bob ann).aead sealed_hi aad ≡ some (codes "hi"))
    × (unseal toy (met toy kdf psk_text ann bob).aead sealed_hi aad ≡ some (codes "hi"))
hellos_open_example =
    hellos_open toy toy_laws kdf psk_text ann bob (10 ∷ 255 ∷ []) keys ann-Waits bob-Waits psk_bytes
      keys_lem (codes "hi") (replicate 24 1) sealed_hi (codes "hi") (replicate 24 1) sealed_hi refl
      refl ann_seals bob_seals
