-- ===== src/Chat/Early.antt =====
-- A HELLO that arrives before the receiver's own hello thread has seen the link come up: `on_rx` and
-- the thread started by `start`, both of src/app/chat_service.cpp.
mod Runs
use bitchat_clone.Base.{ℕ, ◌≡◌, List, ◌∷◌, Option, take_all}
use mathlib.Core.Path.{ap₂}
use bitchat_clone.Aead.Sodium.{Primitives, Cipher}
use bitchat_clone.Aead.Opening.{IsStranger}
use bitchat_clone.Ctrl.{Hello}
use bitchat_clone.Chat.{ChatService, Kdf}
use bitchat_clone.Chat.Agreement.{Waits, on_rx-Keyed}
use bitchat_clone.Chat.Rounds.{Alike, on_data-Alike}

module _ (P : Primitives) (K : Kdf) (env_psk : Option (List ℕ)) where
  -- What no frame changes: the fixed key, and what the service was started with.
  abbrev Same : ChatService Cipher → ChatService Cipher → Type 0
  Same s t =
      (s.aead.key ≡ t.aead.key)
      × (s.is_central ≡ t.is_central)
      × (s.local_has_psk ≡ t.local_has_psk)
      × (s.local_caps ≡ t.local_caps)
      × (s.ctrl_hello_enabled ≡ t.ctrl_hello_enabled)
