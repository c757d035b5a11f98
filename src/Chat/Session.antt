-- ===== src/Chat/Session.antt =====
-- What can happen to a running service, and the flags that `maybe_kex`, `on_rx` and the hello thread
-- keep in step.
use bitchat_clone.Base.{ℕ, ◌≡◌, Bool, true, List, [], ◌∷◌, Option, none, some, arith}
use bitchat_clone.Aead.{PskAead, SessionKeys}
use bitchat_clone.Ctrl.{Hello, Parsed, accepted, malformed, stuck, new_hello, parse_hello}
use bitchat_clone.Frag.{Chunk}
use bitchat_clone.Frag.Wire.{parse}
use bitchat_clone.Frag.Reassembler.{feed}
use bitchat_clone.Chat.{ChatService, Kdf}
use bitchat_clone.Chat.Kex.{install, derive_and_install, maybe_kex}
use bitchat_clone.Chat.Receive.{
  note_hello, take_hello, on_full, on_chunk, on_data, on_parsed, on_rx,
}
use bitchat_clone.Chat.Send.{bump_id}
use bitchat_clone.Chat.Hello.{on_edge, on_down, hello_round}

-- The flags: `aead_on_` is set only with a pre-shared key on this side and random bytes from both.
pub record HasFlags {Cipher : Type 0} (s : ChatService Cipher) : Type 0 where
  pub local_psk : s.aead_on ≡ true → s.local_has_psk ≡ true
  pub local_na : s.aead_on ≡ true → s.have_na_local ≡ true
  pub peer_na : s.aead_on ≡ true → s.have_na_peer ≡ true

-- One thing that can happen to a running service. A HELLO round and a received frame come from
-- different threads, in any order.
pub data Event : Type 0 where
  receives : List ℕ → Event
  round : Bool → Bool → List ℕ → (List ℕ → Bool) → Event
  sends : Event
  sets_tail : Bool → Event

module _ (K : Kdf) (A : PskAead) (env_psk : Option (List ℕ)) where
  open A use {Cipher}

  unfoldable pub step : ChatService Cipher → Event → ChatService Cipher
  step s (receives f) = (on_rx K A env_psk s f).0
  step s (round last_ready ready na send) = hello_round K A last_ready ready na send s
  step s sends = bump_id s
  step s (sets_tail on) = record s { tail_enabled = on }

  unfoldable pub run : ChatService Cipher → List Event → ChatService Cipher
  run s [] = s
  run s (e ∷ es) = run (step s e) es

  install-HasFlags :
      (s : ChatService Cipher) (keys : Option SessionKeys)
      → s.local_has_psk ≡ true
      → s.have_na_local ≡ true
      → s.have_na_peer ≡ true
      → HasFlags (install K A s keys)
  install-HasFlags s none p l n = record { local_psk = λ _. p; local_na = λ _. l; peer_na = λ _. n }
  install-HasFlags s (some k) p l n = record {
    local_psk = λ _. p;
    local_na = λ _. l;
    peer_na = λ _. n;
  }

  derive-HasFlags :
      (s : ChatService Cipher)
      → s.local_has_psk ≡ true
      → s.have_na_local ≡ true
      → s.have_na_peer ≡ true
      → HasFlags (derive_and_install K A env_psk s)
  unfolding derive_and_install
  derive-HasFlags s p l n = install-HasFlags s _ p l n

  maybe_kex-HasFlags : (s : ChatService Cipher) → HasFlags s → HasFlags (maybe_kex K A env_psk s)
  unfolding maybe_kex
  maybe_kex-HasFlags s v = ground (arith, derive-HasFlags s)

  note_hello-HasFlags :
      (h : Hello) (s : ChatService Cipher) → HasFlags s → HasFlags (note_hello h s)
  unfolding note_hello
  note_hello-HasFlags h s v = ground arith

  on_full-HasFlags :
      (s : ChatService Cipher) (full : Option (List ℕ))
      → HasFlags s
      → HasFlags (on_full K A env_psk s full).0
  on_full-HasFlags s none v = v
  on_full-HasFlags s (some full) v = v

  on_chunk-HasFlags :
      (s : ChatService Cipher) (c : Option Chunk)
      → HasFlags s
      → HasFlags (on_chunk K A env_psk s c).0
  on_chunk-HasFlags s none v = v
  on_chunk-HasFlags s (some c) v =
      on_full-HasFlags (record s { rx = (feed s.rx c).0 }) (feed s.rx c).1
        (record { local_psk = v.local_psk; local_na = v.local_na; peer_na = v.peer_na })

  on_data-HasFlags :
      (s : ChatService Cipher) (f : List ℕ) → HasFlags s → HasFlags (on_data K A env_psk s f).0
  unfolding on_data
  on_data-HasFlags s f v = on_chunk-HasFlags s (parse f) v

  on_parsed-HasFlags :
      (s : ChatService Cipher) (f : List ℕ) (p : Parsed)
      → HasFlags s
      → HasFlags (on_parsed K A env_psk s f p).0
  unfolding take_hello
  on_parsed-HasFlags s f (accepted h) v =
      maybe_kex-HasFlags (note_hello h s) (note_hello-HasFlags h s v)
  on_parsed-HasFlags s f (malformed h) v = on_data-HasFlags s f v
  on_parsed-HasFlags s f stuck v = on_data-HasFlags s f v

  on_rx-HasFlags :
      (s : ChatService Cipher) (f : List ℕ) → HasFlags s → HasFlags (on_rx K A env_psk s f).0
  unfolding on_rx
  on_rx-HasFlags s f v =
      ground (arith, on_parsed-HasFlags s f (parse_hello f new_hello) v, on_data-HasFlags s f v)

  hello_round-HasFlags :
      (last_ready ready : Bool) (na : List ℕ) (send : List ℕ → Bool) (s : ChatService Cipher)
      → HasFlags s
      → HasFlags (hello_round K A last_ready ready na send s)
  unfolding hello_round on_edge on_down
  hello_round-HasFlags last_ready ready na send s v = ground arith

  -- One event keeps the flags in step.
  pub step-HasFlags : (s : ChatService Cipher) (e : Event) → HasFlags s → HasFlags (step s e)
  unfolding step
  step-HasFlags s (receives f) v = on_rx-HasFlags s f v
  step-HasFlags s (round l r na send) v = hello_round-HasFlags l r na send s v
  step-HasFlags s sends v = ground arith
  step-HasFlags s (sets_tail on) v = ground arith
