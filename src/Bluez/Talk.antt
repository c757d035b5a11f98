-- ===== src/Bluez/Talk.antt =====
-- Two daemons over BlueZ from the link's coming up to a text: the hello threads of both, started by
-- `ChatService::start`, the HELLOs on their way, and `ChatService::send_text`.
pub mod Hellos
pub mod Texts
mod Runs
use bitchat_clone.Base.{
  ℕ, suc, ◌+◌, ◌-◌, ◌%◌, ◌^◌, ◌<◌, ◌≤◌, ◌≡◌, refl, ap, sym, subst, ◌∙◌, Bool, true, false, not,
  List, [], ◌∷◌, ◌++◌, Option, none, some, length, arith, lookup, IsU32, take, take_all,
  if◌then◌else◌,
}
use mathlib.Core.Path.{ap₂}
use bitchat_clone.Aead.{PskAead, SessionKeys}
use bitchat_clone.Aead.Sodium.{Primitives, IsLawful, Cipher, sodium_aead, seal, unseal}
use bitchat_clone.Ctrl.{encode_hello}
use bitchat_clone.Frag.Chunks.{make_chunks, num_chunks}
use bitchat_clone.Frag.Reassembler.{Reassembler}
use bitchat_clone.Chat.{ChatService, Kdf}
use bitchat_clone.Chat.Psk.{parse_psk_env}
use bitchat_clone.Chat.Kex.{usable, derive_keys, key_material}
use bitchat_clone.Chat.Receive.{Shown, log, recv, aad, on_rx}
use bitchat_clone.Chat.Send.{send_text}
use bitchat_clone.Chat.Hello.{on_edge, on_down, hello_frame, hello_round}
use bitchat_clone.Chat.Agreement.{Waits, Keyed, hello_from, met, hellos_open}
use bitchat_clone.Chat.Calm.{none_hello}
use bitchat_clone.Chat.Rounds.{Willing, come_up, come_up-Waits, come_up-na32}
use bitchat_clone.Bluez.{Bluez, no_bytes}
use bitchat_clone.Bluez.Air.{Air, Radio, arrive, send_air, air_link, IsLinked}
use bitchat_clone.Bluez.EndToEnd.{
  IsUp, CanCross, send_text_crosses, sent_air, arrived, relinked, deliver_lem,
}

-- Two daemons with their services, transports and the lines that each has shown.
pub record Pair (Cipher : Type 0) : Type 0 where
  pub left : ChatService Cipher
  pub right : ChatService Cipher
  pub left_tx : Bluez
  pub right_tx : Bluez
  pub left_shown : List Shown
  pub right_shown : List Shown

-- The two directions.
abbrev pub forth : {Cipher : Type 0} → Pair Cipher → Air Cipher
forth p = record {
  sender = p.left;
  near = p.left_tx;
  far = p.right_tx;
  receiver = p.right;
  shown = p.right_shown;
}

abbrev pub back : {Cipher : Type 0} → Pair Cipher → Air Cipher
back p = record {
  sender = p.right;
  near = p.right_tx;
  far = p.left_tx;
  receiver = p.left;
  shown = p.left_shown;
}

abbrev pub put_forth : {Cipher : Type 0} → Pair Cipher → Air Cipher → Pair Cipher
put_forth p a = record p {
  left = a.sender;
  left_tx = a.near;
  right_tx = a.far;
  right = a.receiver;
  right_shown = a.shown;
}

abbrev pub put_back : {Cipher : Type 0} → Pair Cipher → Air Cipher → Pair Cipher
put_back p a = record p {
  right = a.sender;
  right_tx = a.near;
  left_tx = a.far;
  left = a.receiver;
  left_shown = a.shown;
}

module _ (R : Radio) (K : Kdf) (A : PskAead) (env_psk : Option (List ℕ)) where
  abbrev pub send_hello : Option (List ℕ) → Air A.Cipher → Air A.Cipher
  send_hello none a = a
  send_hello (some f) a = (send_air R K A env_psk a f).0

  -- The HELLO of the round that sees the link come up.
  abbrev pub first_hello : List ℕ → ChatService A.Cipher → Option (List ℕ)
  first_hello na s = hello_frame K A true (on_edge K A false true na s)

  -- The HELLO of the left side is sent, and then that of the right side.
  abbrev pub exchange : Option (List ℕ) → Option (List ℕ) → Pair A.Cipher → Pair A.Cipher
  exchange f g p =
      let half = put_forth p (send_hello f (forth p)) in put_back half (send_hello g (back half))

  -- Both hello threads see the link come up; then the HELLO of the left side is sent, and that of the
  -- right side.
  unfoldable pub greet : List ℕ → List ℕ → Pair A.Cipher → Pair A.Cipher
  greet na na' p = exchange (first_hello na p.left) (first_hello na' p.right) (record p {
    left = hello_round K A false true na (λ f. true) p.left;
    right = hello_round K A false true na' (λ f. true) p.right;
  })
