-- ===== src/Chat/Rounds.antt =====
-- The round of the hello thread in which it sees the link come up, and what leaves the session alone.
use bitchat_clone.Base.{
  ℕ, ◌≡◌, refl, sym, subst, ◌∙◌, Bool, true, false, not, ◌&&◌, List, [], ◌∷◌, Option, none, some,
  arith, length, is_off,
}
use mathlib.Core.Path.{ap₂}
use bitchat_clone.Aead.{SessionKeys}
use bitchat_clone.Aead.Sodium.{Primitives, Cipher, set_session, sodium_aead}
use bitchat_clone.Frag.{Chunk}
use bitchat_clone.Frag.Wire.{parse}
use bitchat_clone.Chat.{ChatService, Kdf}
use bitchat_clone.Chat.Psk.{parse_psk_env}
use bitchat_clone.Chat.Kex.{usable, derive_keys, key_material}
use bitchat_clone.Chat.Receive.{on_full, on_chunk, on_data}
use bitchat_clone.Chat.Hello.{on_edge, on_down, hello_round}
use bitchat_clone.Chat.Agreement.{Waits, Keyed, on_rx-Keyed, met}
use bitchat_clone.Chat.Calm.{is_hello, calm_on_rx}
use bitchat_clone.Chat.Session.{Event, receives, round, sends, sets_tail, step, run}

-- A service on a BlueZ transport that has a pre-shared key.
pub record Willing (s : ChatService Cipher) (central : Bool) : Type 0 where
  pub role : s.is_central ≡ central
  pub psk : s.local_has_psk ≡ true
  pub caps : s.local_caps ≡ 1
  pub hello_on : s.ctrl_hello_enabled ≡ true

-- An event that brings no HELLO and no change of the link.
abbrev pub is_steady : Event → Bool
is_steady (receives f) = not (is_hello f)
is_steady (round last_ready ready na send) = last_ready && ready
is_steady sends = true
is_steady (sets_tail on) = true

abbrev pub all_steady : List Event → Bool
all_steady [] = true
all_steady (e ∷ es) = is_steady e && all_steady es

module _ (K : Kdf) (P : Primitives) where
  -- The round that sees the link come up and draws `na`; the transport takes the HELLO.
  abbrev pub come_up : List ℕ → ChatService Cipher → ChatService Cipher
  come_up na s = hello_round K (sodium_aead P) false true na (λ f. true) s

  pub come_up-Waits :
      (na : List ℕ) (s : ChatService Cipher) (central : Bool)
      → Willing s central
      → length na ≡ 32
      → Waits (come_up na s) central
  unfolding hello_round on_edge on_down
  come_up-Waits na s central w size = record {
    role = w.role;
    psk = w.psk;
    caps = w.caps;
    na_ready = w.psk;
    na_size = size;
    off = refl;
    hello_on = w.hello_on;
  }

  pub come_up-na32 : (na : List ℕ) (s : ChatService Cipher) → (come_up na s).na32 ≡ na
  unfolding hello_round on_edge on_down
  come_up-na32 na s = refl

  pub come_up-aead :
      (na : List ℕ) (s : ChatService Cipher)
      → ((come_up na s).aead ≡ (set_session s.aead none).0) × ((come_up na s).aead_on ≡ false)
  unfolding hello_round on_edge on_down
  come_up-aead na s = (refl, refl)

  module _ (env_psk : Option (List ℕ)) where
    -- The two services have the same cipher, and the session is on at both or at neither.
    abbrev pub Alike : ChatService Cipher → ChatService Cipher → Type 0
    Alike s t = (s.aead ≡ t.aead) × (s.aead_on ≡ t.aead_on)

    on_full-Alike :
        (s : ChatService Cipher) (full : Option (List ℕ))
        → Alike (on_full K (sodium_aead P) env_psk s full).0 s
    on_full-Alike s none = (refl, refl)
    on_full-Alike s (some full) = (refl, refl)

    on_chunk-Alike :
        (s : ChatService Cipher) (c : Option Chunk)
        → Alike (on_chunk K (sodium_aead P) env_psk s c).0 s
    on_chunk-Alike s none = (refl, refl)
    on_chunk-Alike s (some c) = on_full-Alike _ _

    pub on_data-Alike :
        (s : ChatService Cipher) (f : List ℕ) → Alike (on_data K (sodium_aead P) env_psk s f).0 s
    unfolding on_data
    on_data-Alike s f = on_chunk-Alike s (parse f)

    step-Alike :
        (s : ChatService Cipher) (e : Event)
        → is_steady e ≡ true
        → Alike (step K (sodium_aead P) env_psk s e) s
    unfolding step hello_round on_edge on_down
    step-Alike s (receives f) h =
        subst (λ w. Alike w.0 s)
          (sym (calm_on_rx K (sodium_aead P) env_psk s f (is_off (is_hello f) h)))
          (on_data-Alike s f)
    step-Alike s (round last_ready ready na send) h = (ground arith, ground arith)
    step-Alike s sends h = (refl, refl)
    step-Alike s (sets_tail on) h = (refl, refl)

    pub run-Alike :
        (s : ChatService Cipher) (es : List Event)
        → all_steady es ≡ true
        → Alike (run K (sodium_aead P) env_psk s es) s
    unfolding run
    run-Alike s [] h = (refl, refl)
    run-Alike s (e ∷ es) h =
        let (a, b) = run-Alike (step K (sodium_aead P) env_psk s e) es (ground arith) in
        let (c, d) = step-Alike s e (ground arith) in (a ∙ c, b ∙ d)

module _ (P : Primitives) (K : Kdf) (env_psk : Option (List ℕ)) where
  -- A side that saw the link come up, after the HELLO of a peer that did.
  pub come_up-Keyed :
      (s peer : ChatService Cipher) (central other : Bool) (na na' psk : List ℕ)
      (keys : SessionKeys)
      → Willing s central
      → Willing peer other
      → length na ≡ 32
      → length na' ≡ 32
      → usable (parse_psk_env K env_psk) ≡ some psk
      → derive_keys K psk (key_material central na na') ≡ some keys
      → Keyed P K env_psk
          (come_up K P na s)
          (met P K env_psk (come_up K P na s) (come_up K P na' peer))
          central
          keys
  come_up-Keyed s peer central other na na' psk keys w v size size' u d =
      on_rx-Keyed P K env_psk (come_up K P na s) (come_up K P na' peer) central other psk keys
        (come_up-Waits K P na s central w size) (come_up-Waits K P na' peer other v size') u
        (ap₂ (λ x y. derive_keys K psk (key_material central x y)) (come_up-na32 K P na s)
            (come_up-na32 K P na' peer)
          ∙ d)
