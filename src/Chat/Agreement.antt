-- ===== src/Chat/Agreement.antt =====
-- What two services with the same pre-shared key make of each other's HELLO.
use bitchat_clone.Base.{
  inl, subst, leb, ◌&&◌, ℕ, suc, ◌≡◌, refl, ap, sym, ◌∙◌, Bool, true, false, List, ◌∷◌, ◌++◌,
  Option, some, arith, if◌then◌else◌, length, take, take_all,
}
use bitchat_clone.Aead.{SessionKeys}
use bitchat_clone.Aead.Sodium.{Primitives, IsLawful, Cipher, set_session, sodium_aead, seal, unseal}
use bitchat_clone.Aead.Opening.{Shares, opens_shared}
use bitchat_clone.Ctrl.{new_hello, encode_hello, parse_hello}
use bitchat_clone.Ctrl.RoundTrip.{hello_of, parse_hello-encode_hello}
use bitchat_clone.Chat.{ChatService, Kdf}
use bitchat_clone.Chat.Psk.{parse_psk_env}
use bitchat_clone.Chat.Kex.{
  usable, derive_keys, key_material, install, derive_and_install, keys_for, maybe_kex, local_keys,
}
use bitchat_clone.Chat.Receive.{on_data, note_hello, take_hello, on_parsed, on_rx, aad}

-- A service that waits for its peer's HELLO.
pub record Waits (s : ChatService Cipher) (central : Bool) : Type 0 where
  pub role : s.is_central ≡ central
  pub psk : s.local_has_psk ≡ true
  pub caps : s.local_caps ≡ 1
  pub na_ready : s.have_na_local ≡ true
  pub na_size : length s.na32 ≡ 32
  pub off : s.aead_on ≡ false
  pub hello_on : s.ctrl_hello_enabled ≡ true

-- The HELLO that the service sends.
abbrev pub hello_from : ChatService Cipher → List ℕ
hello_from s = encode_hello s.local_user s.local_caps (some s.na32)

two_or_more : (n : ℕ) → leb 2 (suc (suc n)) ≡ true
two_or_more n = ground arith

module _ (P : Primitives) (K : Kdf) (env_psk : Option (List ℕ)) where
  hello_guard :
      (f rest : List ℕ) (s : ChatService Cipher)
      → f ≡ 1 ∷ 1 ∷ rest
      → s.ctrl_hello_enabled ≡ true
      → on_rx K (sodium_aead P) env_psk s f
        ≡ on_parsed K (sodium_aead P) env_psk s f (parse_hello f new_hello)
  unfolding on_rx
  hello_guard f rest s e on =
      simp (on, e)
        (ap
          (λ b.
            if b && true && true
            then on_parsed K (sodium_aead P) env_psk s (1 ∷ 1 ∷ rest)
                (parse_hello (1 ∷ 1 ∷ rest) new_hello)
            else on_data K (sodium_aead P) env_psk s (1 ∷ 1 ∷ rest))
          (two_or_more (length rest)))

  on_rx_hello :
      (s : ChatService Cipher) (user na : List ℕ)
      → s.ctrl_hello_enabled ≡ true
      → length na ≡ 32
      → on_rx K (sodium_aead P) env_psk s (encode_hello user 1 (some na))
        ≡ take_hello K (sodium_aead P) env_psk (hello_of user 1 (some na)) s
  unfolding encode_hello
  on_rx_hello s user na on size =
      hello_guard (encode_hello user 1 (some na)) _ s refl on
      ∙ ap (on_parsed K (sodium_aead P) env_psk s (encode_hello user 1 (some na)))
          (parse_hello-encode_hello user 1 (some na) (omega arith) size)

  -- What a HELLO with a nonce leaves: the session's keys, in the order of this side's role.
  abbrev pub Keyed : ChatService Cipher → ChatService Cipher → Bool → SessionKeys → Type 0
  Keyed s s' central keys =
      (s'.aead_on ≡ true) × (s'.aead ≡ (set_session s.aead (some (local_keys central keys))).0)

  maybe_kex_on :
      (s : ChatService Cipher)
      → s.local_has_psk ≡ true
      → s.peer_has_psk ≡ true
      → s.have_na_local ≡ true
      → s.have_na_peer ≡ true
      → s.aead_on ≡ false
      → maybe_kex K (sodium_aead P) env_psk s ≡ derive_and_install K (sodium_aead P) env_psk s
  unfolding maybe_kex
  maybe_kex_on s lp pp nl np off = simp (lp, pp, nl, np, off)

  install-Keyed :
      (s : ChatService Cipher) (central : Bool) (keys : SessionKeys)
      → s.is_central ≡ central
      → Keyed s (install K (sodium_aead P) s (some keys)) central keys
  unfolding set_session
  install-Keyed s central keys r =
      (refl, ap (λ c. (set_session s.aead (some (local_keys c keys))).0) r)

  derive-Keyed :
      (s : ChatService Cipher) (central : Bool) (psk : List ℕ) (keys : SessionKeys)
      → s.is_central ≡ central
      → usable (parse_psk_env K env_psk) ≡ some psk
      → derive_keys K psk (key_material central s.na32 s.peer_na32) ≡ some keys
      → Keyed s (derive_and_install K (sodium_aead P) env_psk s) central keys
  unfolding derive_and_install
  derive-Keyed s central psk keys r u d =
      subst (λ o. Keyed s (install K (sodium_aead P) s o) central keys)
        (sym (
          ap (keys_for K (sodium_aead P) s) u
          ∙ ap (λ c. derive_keys K psk (key_material c s.na32 s.peer_na32)) r
          ∙ d))
        (install-Keyed s central keys r)

  take_hello-Keyed :
      (s : ChatService Cipher) (central : Bool) (user na psk : List ℕ) (keys : SessionKeys)
      → Waits s central
      → length na ≡ 32
      → usable (parse_psk_env K env_psk) ≡ some psk
      → derive_keys K psk (key_material central s.na32 na) ≡ some keys
      → Keyed s (take_hello K (sodium_aead P) env_psk (hello_of user 1 (some na)) s).0 central keys
  unfolding take_hello note_hello
  take_hello-Keyed s central user na psk keys w size u d =
      subst (λ k. Keyed s k central keys)
        (sym (
          maybe_kex_on (note_hello (hello_of user 1 (some na)) s) w.psk refl w.na_ready refl w.off))
        (derive-Keyed (note_hello (hello_of user 1 (some na)) s) central psk keys w.role u (
          ap (λ k. derive_keys K psk (key_material central s.na32 k)) (take_all 32 na (omega arith))
          ∙ d))

  pub on_rx-Keyed :
      (s peer : ChatService Cipher) (central other : Bool) (psk : List ℕ) (keys : SessionKeys)
      → Waits s central
      → Waits peer other
      → usable (parse_psk_env K env_psk) ≡ some psk
      → derive_keys K psk (key_material central s.na32 peer.na32) ≡ some keys
      → Keyed s (on_rx K (sodium_aead P) env_psk s (hello_from peer)).0 central keys
  on_rx-Keyed s peer central other psk keys w v u d =
      subst (λ k. Keyed s k central keys)
        (sym (
          ap
            (λ c.
              (on_rx K (sodium_aead P) env_psk s
                (encode_hello peer.local_user c (some peer.na32))).0)
            v.caps
          ∙ ap (λ t. t.0) (on_rx_hello s peer.local_user peer.na32 w.hello_on v.na_size)))
        (take_hello-Keyed s central peer.local_user peer.na32 psk keys w v.na_size u d)

  Keyed-Shares :
      (a a' b b' : ChatService Cipher) (keys : SessionKeys)
      → Keyed a a' true keys
      → Keyed b b' false keys
      → Shares P a'.aead b'.aead × Shares P b'.aead a'.aead
  unfolding set_session
  Keyed-Shares a a' b b' keys (_, ea) (_, eb) =
      subst (λ c. Shares P c b'.aead × Shares P b'.aead c) (sym ea)
        (subst
          (λ c.
            Shares P (set_session a.aead (some keys)).0 c
            × Shares P c (set_session a.aead (some keys)).0)
          (sym eb) (inl (refl, refl), inl (refl, refl)))

  -- The first side after it received the second side's HELLO.
  abbrev pub met : ChatService Cipher → ChatService Cipher → ChatService Cipher
  met s peer = (on_rx K (sodium_aead P) env_psk s (hello_from peer)).0

module _ (P : Primitives) (K : Kdf) (env_psk : Option (List ℕ)) where
  -- A central and a peripheral wait for each other's HELLO, each with 32 random bytes and with the
  -- same pre-shared key in the environment, and HKDF gives session keys for the central's bytes
  -- followed by the peripheral's. Once each has received the other's HELLO, the session is on at
  -- both, and each has the key that the other one seals with.
  pub hellos_agree :
      (a b : ChatService Cipher) (psk : List ℕ) (keys : SessionKeys)
      → Waits a true
      → Waits b false
      → usable (parse_psk_env K env_psk) ≡ some psk
      → derive_keys K psk (take 32 a.na32 ++ take 32 b.na32) ≡ some keys
      → ((met P K env_psk a b).aead_on ≡ true)
        × ((met P K env_psk b a).aead_on ≡ true)
        × Shares P (met P K env_psk a b).aead (met P K env_psk b a).aead
        × Shares P (met P K env_psk b a).aead (met P K env_psk a b).aead
  hellos_agree a b psk keys wa wb u d =
      let ka = on_rx-Keyed P K env_psk a b true false psk keys wa wb u d in
      let kb = on_rx-Keyed P K env_psk b a false true psk keys wb wa u d in
      let (ab, ba) =
        Keyed-Shares P K env_psk a (met P K env_psk a b) b (met P K env_psk b a) keys ka kb in
      (ka.0, kb.0, ab, ba)

module _ (P : Primitives) (laws : IsLawful P) (K : Kdf) (env_psk : Option (List ℕ)) where
  -- A central and a peripheral wait for each other's HELLO, each with 32 random bytes and with the
  -- same pre-shared key in the environment, HKDF gives session keys for the central's bytes followed
  -- by the peripheral's, and the cipher has its laws. Once each has received the other's HELLO, a
  -- message that either seals with a nonce of 24 bytes is opened to itself by the other.
  pub hellos_open :
      (a b : ChatService Cipher) (psk : List ℕ) (keys : SessionKeys)
      → Waits a true
      → Waits b false
      → usable (parse_psk_env K env_psk) ≡ some psk
      → derive_keys K psk (take 32 a.na32 ++ take 32 b.na32) ≡ some keys
      → (msg random sealed msg' random' sealed' : List ℕ) → length random ≡ 24
      → length random' ≡ 24
      → seal P (met P K env_psk a b).aead msg aad random ≡ some sealed
      → seal P (met P K env_psk b a).aead msg' aad random' ≡ some sealed'
      → (unseal P (met P K env_psk b a).aead sealed aad ≡ some msg)
        × (unseal P (met P K env_psk a b).aead sealed' aad ≡ some msg')
  hellos_open a b psk keys wa wb u d msg random sealed msg' random' sealed' r r' e e' =
      let (_, _, ab, ba) = hellos_agree P K env_psk a b psk keys wa wb u d in
      (
        opens_shared P laws (met P K env_psk a b).aead (met P K env_psk b a).aead msg aad random
            sealed r e ab,
        opens_shared P laws (met P K env_psk b a).aead (met P K env_psk a b).aead msg' aad random'
            sealed' r' e' ba,
      )
