-- ===== src/Loopback.antt =====
-- class LoopbackTransport of include/transport/loopback_transport.hpp and
-- src/transport/loopback_transport.cpp: a link that hands each frame back to the service.
pub mod EndToEnd
mod Runs
use bitchat_clone.Base.{
  ℕ, Bool, true, false, not, ◌&&◌, ◌||◌, List, [], ◌∷◌, Option, if◌then◌else◌, ltb, ◌==◌, length,
}
use bitchat_clone.Aead.{PskAead}
use bitchat_clone.Chat.{ChatService, Kdf}
use bitchat_clone.Chat.Receive.{Shown, log, on_rx}
use bitchat_clone.Chat.Send.{Link}
use bitchat_clone.Chat.Hello.{Settings}

-- `attached` says whether `on_rx_` holds a callback.
pub record Loopback : Type 0 where
  pub attached : Bool
  pub mtu : ℕ
  pub started : Bool

unfoldable pub start : Settings → Loopback → Loopback × Bool
start s t = (record { attached = true; mtu = s.mtu_payload; started = true }, true)

unfoldable pub stop : Loopback → Loopback
stop t = record t { started = false; attached = false }

abbrev pub link_ready : Loopback → Bool
link_ready t = true

-- Whether `send` reaches its call of the callback.
unfoldable pub accepts : Loopback → List ℕ → Bool
accepts t f =
    if not t.started || not t.attached
    then false
    else if not (t.mtu == 0) && ltb t.mtu (length f)
    then false
    else true

-- The service with the transport, and the lines that it has shown, oldest first.
pub record World (Cipher : Type 0) : Type 0 where
  pub service : ChatService Cipher
  pub tx : Loopback
  pub shown : List Shown

module _ (K : Kdf) (A : PskAead) (env_psk : Option (List ℕ)) where
  abbrev pub deliver : World A.Cipher → ChatService A.Cipher × Shown → World A.Cipher
  deliver w (s, line) = record w { service = s; shown = log w.shown line }

  -- The callback that `ChatService::start` passes is `on_rx`, and it runs inside `send`.
  unfoldable pub send : World A.Cipher → List ℕ → World A.Cipher × Bool
  send w f =
      if accepts w.tx f then (deliver w (on_rx K A env_psk w.service f), true) else (w, false)

  abbrev pub link : Link A.Cipher
  link = record {
    World = World A.Cipher;
    service = λ w. w.service;
    put_service = λ w s. record w { service = s };
    send = send;
  }
