-- ===== src/Chat/Keys.antt =====
-- With which keys a service has a session: what `maybe_kex`, `on_rx` and the hello thread make of the
-- random bytes of both sides.
use bitchat_clone.Base.{
  ℕ, ◌≡◌, inl, inr, refl, Bool, true, false, not, ◌||◌, Bool-cases, if◌then◌else◌, List, [], ◌∷◌,
  Option, none, some, take, replicate, ◌&&◌, leb, length, get_or, ◌==◌,
}
use bitchat_clone.Aead.{PskAead, SessionKeys}
use bitchat_clone.Ctrl.{
  Hello, Parsed, accepted, malformed, stuck, new_hello, parse_hello, msg_ctrl_hello, hello_ver,
}
use bitchat_clone.Frag.{Chunk}
use bitchat_clone.Frag.Wire.{parse}
use bitchat_clone.Frag.Reassembler.{feed}
use bitchat_clone.Chat.{ChatService, Kdf}
use bitchat_clone.Chat.Psk.{parse_psk_env}
use bitchat_clone.Chat.Kex.{
  usable, derive_keys, key_material, local_keys, keys_for, install, derive_and_install, maybe_kex,
}
use bitchat_clone.Chat.Receive.{
  Shown, note_hello, take_hello, on_full, on_chunk, on_data, on_parsed, on_rx,
}
use bitchat_clone.Chat.Hello.{on_edge, on_down, hello_round}
use bitchat_clone.Chat.Session.{
  HasFlags, Event, receives, round, sends, sets_tail, step, step-HasFlags, run,
}

-- `Q` is any property of the peer's random bytes.
module _ (K : Kdf) (A : PskAead) (env_psk : Option (List ℕ)) (Q : List ℕ → Type 0) where
  open A use {Cipher, set_session}

  -- The keys in use are those that HKDF gives for the pre-shared key, this side's random bytes, and
  -- bytes of the peer with the property, in the order of the roles.
  abbrev pub InUse : ChatService Cipher → Type 0
  InUse s =
      (n : List ℕ) × (psk : List ℕ) × (keys : SessionKeys) × (old : Cipher) × Q n
      × (usable (parse_psk_env K env_psk) ≡ some psk)
      × (derive_keys K psk (key_material s.is_central s.na32 n) ≡ some keys)
      × (s.aead ≡ (set_session old (some (local_keys s.is_central keys))).0)

  abbrev pub Proven : ChatService Cipher → Type 0
  Proven s = Q s.peer_na32 × (s.aead_on ≡ true → InUse s)

  pub record IsKeyed (s : ChatService Cipher) : Type 0 where
    pub flags : HasFlags s
    pub proven : Proven s

  -- A HELLO with a nonce brings bytes with the property.
  abbrev pub Heard : List ℕ → Type 0
  Heard f =
      (h : Hello) → parse_hello f new_hello ≡ accepted h → h.has_na32 ≡ true → Q (take 32 h.na32)

  abbrev pub HeardIn : Event → Type 0
  HeardIn (receives f) = Heard f
  HeardIn (round last_ready ready na send) = Unit {0}
  HeardIn sends = Unit {0}
  HeardIn (sets_tail on) = Unit {0}

  abbrev pub AllHeard : List Event → Type 0
  AllHeard [] = Unit {0}
  AllHeard (e ∷ es) = HeardIn e × AllHeard es

  either : {B : Type 0} (P : B → Type 0) (t : Bool) (x y : B) → P x → P y → P (if t then x else y)
  either P true x y p q = p
  either P false x y p q = q

  install-Proven :
      (s : ChatService Cipher) (psk : List ℕ) (keys : Option SessionKeys)
      → usable (parse_psk_env K env_psk) ≡ some psk
      → derive_keys K psk (key_material s.is_central s.na32 s.peer_na32) ≡ keys
      → Proven s
      → Proven (install K A s keys)
  install-Proven s psk none u d v = v
  install-Proven s psk (some keys) u d v =
      (v.0, λ on. (s.peer_na32, psk, keys, s.aead, v.0, u, d, refl))

  keys-Proven :
      (s : ChatService Cipher) (psk : Option (List ℕ))
      → usable (parse_psk_env K env_psk) ≡ psk
      → Proven s
      → Proven (install K A s (keys_for K A s psk))
  keys-Proven s none u v = v
  keys-Proven s (some psk) u v = install-Proven s psk _ u refl v

  maybe_kex-Proven : (s : ChatService Cipher) → Proven s → Proven (maybe_kex K A env_psk s)
  unfolding maybe_kex derive_and_install
  maybe_kex-Proven s v =
      let derived = keys-Proven s (usable (parse_psk_env K env_psk)) refl v in
      let next = derive_and_install K A env_psk s in
      let kept = if s.aead_on then s else next in
      let ready = if not s.have_na_local || not s.have_na_peer then s else kept in
      either Proven (not s.local_has_psk || not s.peer_has_psk) s ready v (
        either Proven (not s.have_na_local || not s.have_na_peer) s kept v
          (either Proven s.aead_on s next v derived))

  note_hello-Proven :
      (h : Hello) (s : ChatService Cipher)
      → Q (replicate 32 0)
      → (h.has_na32 ≡ true → Q (take 32 h.na32))
      → Proven s
      → Proven (note_hello h s)
  unfolding note_hello
  note_hello-Proven h s zeros heard v =
      (elim (Bool-cases h.has_na32) [ inl on ↦ rw on (heard on) | inr off ↦ rw off zeros ], v.1)

  on_full-Proven :
      (s : ChatService Cipher) (full : Option (List ℕ))
      → Proven s
      → Proven (on_full K A env_psk s full).0
  on_full-Proven s none v = v
  on_full-Proven s (some full) v = v

  on_chunk-Proven :
      (s : ChatService Cipher) (c : Option Chunk) → Proven s → Proven (on_chunk K A env_psk s c).0
  on_chunk-Proven s none v = v
  on_chunk-Proven s (some c) v =
      on_full-Proven (record s { rx = (feed s.rx c).0 }) (feed s.rx c).1 v

  on_data-Proven :
      (s : ChatService Cipher) (f : List ℕ) → Proven s → Proven (on_data K A env_psk s f).0
  unfolding on_data
  on_data-Proven s f v = on_chunk-Proven s (parse f) v

  on_parsed-Proven :
      (s : ChatService Cipher) (f : List ℕ) (p : Parsed)
      → parse_hello f new_hello ≡ p
      → Q (replicate 32 0)
      → Heard f
      → Proven s
      → Proven (on_parsed K A env_psk s f p).0
  unfolding take_hello
  on_parsed-Proven s f (accepted h) e zeros heard v =
      maybe_kex-Proven (note_hello h s) (note_hello-Proven h s zeros (heard h e) v)
  on_parsed-Proven s f (malformed h) e zeros heard v = on_data-Proven s f v
  on_parsed-Proven s f stuck e zeros heard v = on_data-Proven s f v

  on_rx-Proven :
      (s : ChatService Cipher) (f : List ℕ)
      → Q (replicate 32 0)
      → Heard f
      → Proven s
      → Proven (on_rx K A env_psk s f).0
  unfolding on_rx
  on_rx-Proven s f zeros heard v =
      either (λ (w : ChatService Cipher × Shown). Proven w.0)
        (s.ctrl_hello_enabled
          && leb 2 (length f)
          && (get_or f 0 0 == msg_ctrl_hello)
          && (get_or f 1 0 == hello_ver))
        (on_parsed K A env_psk s f (parse_hello f new_hello)) (on_data K A env_psk s f)
        (on_parsed-Proven s f (parse_hello f new_hello) refl zeros heard v) (on_data-Proven s f v)

  hello_round-Proven :
      (last_ready ready : Bool) (na : List ℕ) (send : List ℕ → Bool) (s : ChatService Cipher)
      → Proven s
      → Proven (hello_round K A last_ready ready na send s)
  unfolding hello_round on_edge on_down
  hello_round-Proven last_ready ready na send s v =
      let s' = on_edge K A last_ready ready na s in
      let edge : Proven s' = either Proven _ _ s (v.0, λ on. absurd (cc on)) v in
      either Proven ready _ _ edge (edge.0, λ on. absurd (cc on))

  step-Proven :
      (s : ChatService Cipher) (e : Event)
      → Q (replicate 32 0)
      → HeardIn e
      → Proven s
      → Proven (step K A env_psk s e)
  unfolding step
  step-Proven s (receives f) zeros heard v = on_rx-Proven s f zeros heard v
  step-Proven s (round l r na send) zeros heard v = hello_round-Proven l r na send s v
  step-Proven s sends zeros heard v = v
  step-Proven s (sets_tail on) zeros heard v = v

  -- A service that starts so, with whatever frames and rounds of the hello thread, in any order, has
  -- its session on only where it has a pre-shared key and its own random bytes and was told random
  -- bytes by the peer, and then the keys in use are those that HKDF gives for the pre-shared key, the
  -- service's own random bytes, and some bytes for the peer. For these any property holds that holds
  -- of the 32 zeros, of the bytes stored for the peer at the start, and of the first 32 bytes of the
  -- nonce of each HELLO with a nonce that arrives; so they are one of these.
  pub run-IsKeyed :
      (s : ChatService Cipher) (es : List Event)
      → Q (replicate 32 0)
      → AllHeard es
      → IsKeyed s
      → IsKeyed (run K A env_psk s es)
  unfolding run
  run-IsKeyed s [] zeros heard v = v
  run-IsKeyed s (e ∷ es) zeros heard v =
      run-IsKeyed (step K A env_psk s e) es zeros heard.1 (record {
        flags = step-HasFlags K A env_psk s e v.flags;
        proven = step-Proven s e zeros heard.0 v.proven;
      })
