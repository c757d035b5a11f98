-- ===== src/Bluez/EndToEnd.antt =====
-- A text between two daemons over BlueZ: `ChatService::send_text` of one side, its transport's `send`,
-- BlueZ, the handler of the other side's transport, and `ChatService::on_rx` there; from a
-- central to a peripheral.
pub mod Back
mod Runs
use bitchat_clone.Base.{
  ℕ, suc, zero, ◌+◌, ◌-◌, ◌%◌, ◌^◌, ◌<◌, ◌≤◌, ◌≡◌, refl, ap, sym, subst, ◌∙◌, Bool, true, false,
  not, ◌&&◌, ◌||◌, List, [], ◌∷◌, ◌++◌, Option, none, some, if◌then◌else◌, length, arith, get_elem?,
  lookup, IsU32, some_inj,
}
use bitchat_clone.Text.{codes, starts_with}
use bitchat_clone.Aead.{PskAead}
use bitchat_clone.Ctrl.{Parsed, accepted, malformed, stuck, parse_hello, new_hello}
use bitchat_clone.Frag.{Chunk}
use bitchat_clone.Frag.Chunks.{make_chunks, num_chunks}
use bitchat_clone.Frag.Wire.{serialize}
use bitchat_clone.Frag.Reassembler.{Reassembler}
use bitchat_clone.Frag.Split.{Fits, AreFragments, make_chunks-AreFragments}
use bitchat_clone.Dbus.{Props, Called, replied, Changed}
use bitchat_clone.Chat.{ChatService, Kdf}
use bitchat_clone.Chat.Receive.{Shown, log, recv, aad, on_parsed, on_data, on_rx}
use bitchat_clone.Chat.Send.{Link, is_empty, send_frames, send_chunks, send_text, bump_id}
use bitchat_clone.Chat.Frames.{frame_full}
use bitchat_clone.Chat.Transfer.{Brings, Carries, all_delivered, payload_mtu_lem, send_chunks-cons}
use bitchat_clone.Bluez.{
  Role, central, peripheral, Config, Impl, Bluez, no_bytes, send, deliver_rx_bytes,
}
use bitchat_clone.Bluez.Central.{write_options, central_write, send_central_impl}
use bitchat_clone.Bluez.Central.Signals.{on_props_changed}
use bitchat_clone.Bluez.Peripheral.{
  tx_path, emit_value_props_changed_ay, rx_WriteValue, send_peripheral_impl,
}
use bitchat_clone.Bluez.Peripheral.Relay.{no_offset, relay, relayed, write_arrives}
use bitchat_clone.Bluez.Air.{
  Air, Radio, send_role, carry, shows, arrive, send_air, air_link, IsLinked, IsUnheard, unheard,
  running_send, crosses,
}
use bitchat_clone.Chat.Calm.{is_hello, none_hello, none_hello-get_elem?, calm_on_rx}

pub deliver_lem :
    (f : List ℕ) (t : Bluez)
    → no_bytes f ≡ false
    → t.running ≡ true
    → t.attached ≡ true
    → deliver_rx_bytes f t ≡ true
unfolding deliver_rx_bytes
deliver_lem f t e r h = ground arith

pub no_bytes_lem : (f : List ℕ) → is_empty f ≡ false → no_bytes f ≡ false
no_bytes_lem [] e = e
no_bytes_lem (b ∷ bs) e = refl

module _ (R : Radio) (K : Kdf) (A : PskAead) (env_psk : Option (List ℕ)) where
  -- Both transports run, and the far one has its callback.
  pub record IsUp (a : Air A.Cipher) : Type 0 where
    pub linked : IsLinked R a
    pub near_runs : a.near.running ≡ true
    pub far_runs : a.far.running ≡ true
    pub attached : a.far.attached ≡ true

  -- The world with another map of the receiver and other lines.
  abbrev pub at : Air A.Cipher → Reassembler → List Shown → Air A.Cipher
  at a map lines = record a { receiver = record a.receiver { rx = map }; shown = lines }

  pub sent_air :
      (a : Air A.Cipher) (f : List ℕ)
      → IsLinked R a
      → a.near.running ≡ true
      → no_bytes f ≡ false
      → send_air R K A env_psk a f ≡ (arrive R K A env_psk a (a.far, some f), true)
  unfolding send_air
  sent_air a f l r e =
      let (sent, carried) = crosses R a f l e in
      rw (running_send (send_role R a.near.cfg.role a.near.impl) f a.near r e ∙ sent)
        (ap (λ p. (arrive R K A env_psk a p, true)) carried)

  pub relinked :
      (a : Air A.Cipher) (s t : ChatService A.Cipher) (lines : List Shown)
      → IsLinked R a
      → IsLinked R (record a { sender = s; receiver = t; shown = lines })
  relinked a s t lines l = record {
    has = l.has;
    role = l.role;
    impl = l.impl;
    bus = l.bus;
    found = l.found;
    plain = l.plain;
  }

  pub arrived :
      (a : Air A.Cipher) (f : List ℕ) (t : ChatService A.Cipher) (line : Shown)
      → deliver_rx_bytes f a.far ≡ true
      → on_rx K A env_psk a.receiver f ≡ (t, line)
      → arrive R K A env_psk a (a.far, some f) ≡ record a { receiver = t; shown = log a.shown line }
  arrived a f t line d e = rw d (ap (shows R K A env_psk a) e)

  send_air-Brings :
      (a : Air A.Cipher) (f : List ℕ)
      → IsUp a
      → no_bytes f ≡ false
      → is_hello f ≡ false
      → Brings K A env_psk (air_link R K A env_psk) a.receiver (at a) f
  send_air-Brings a f up e calm = λ map map' lines line q.
      sent_air (at a map lines) f
        (relinked a a.sender (record a.receiver { rx = map }) lines up.linked) up.near_runs e
      ∙ ap (λ w. (w, true))
          (arrived (at a map lines) f (record a.receiver { rx = map' }) line
            (deliver_lem f a.far e up.far_runs up.attached)
            (calm_on_rx K A env_psk (record a.receiver { rx = map }) f calm ∙ q))

-- Both sides are up and the receiver shows what it receives; the sender has a frame size for which
-- chunks can be made, and the message fits; the receiver's cipher opens what the sender's seals; no
-- part of a message with the next id waits at the receiver, and no frame looks like a HELLO.
pub record CanCross (R : Radio) (K : Kdf) (A : PskAead) (env_psk : Option (List ℕ))
    (a : Air A.Cipher) (msg random sealed : List ℕ) : Type 0 where
  pub up : IsUp R K A env_psk a
  pub tail : a.receiver.tail_enabled ≡ true
  pub room : 12 < a.sender.mtu_payload
  pub small : a.sender.mtu_payload ≤ 112
  pub seals : A.seal a.sender.aead msg aad random ≡ some sealed
  pub opens : A.unseal a.receiver.aead sealed aad ≡ some msg
  pub few : num_chunks (length sealed) (a.sender.mtu_payload - 12) ≤ 65535
  pub id_range : IsU32 a.sender.next_id
  pub idle : lookup a.sender.next_id a.receiver.rx ≡ none
  pub calm : none_hello (make_chunks a.sender.next_id sealed (a.sender.mtu_payload - 12)) ≡ true

cross-Carries :
    (R : Radio) (K : Kdf) (A : PskAead) (env_psk : Option (List ℕ)) (a : Air A.Cipher)
    (msg random sealed : List ℕ)
    → CanCross R K A env_psk a msg random sealed
    → Carries K A env_psk
        (air_link R K A env_psk)
        a.receiver
        (at R K A env_psk (record a { sender = bump_id a.sender }))
        a.sender.next_id
        sealed
        msg
        (make_chunks a.sender.next_id sealed (a.sender.mtu_payload - 12))
cross-Carries R K A env_psk a msg random sealed can = record {
  tail = can.tail;
  fragments = pieces;
  id_range = can.id_range;
  opens = can.opens;
  brings = λ i c e.
      send_air-Brings R K A env_psk (record a { sender = bump_id a.sender }) (serialize c)
        (record {
          linked = relinked R K A env_psk a (bump_id a.sender) a.receiver a.shown can.up.linked;
          near_runs = can.up.near_runs;
          far_runs = can.up.far_runs;
          attached = can.up.attached;
        })
        (no_bytes_lem (serialize c)
          (frame_full a.sender.next_id sealed _ pieces can.id_range i c e))
        (none_hello-get_elem? _ i c can.calm e);
}
  where
    pieces :
        AreFragments a.sender.next_id sealed
          (make_chunks a.sender.next_id sealed (a.sender.mtu_payload - 12))
    pieces =
        make_chunks-AreFragments a.sender.next_id sealed _
          (omega (arith, can.room), omega (arith, can.small), can.few)

-- A text that a central sends to a peripheral over BlueZ, under the conditions of `CanCross`, arrives
-- whole: the call succeeds, the one line that the receiver shows
-- is the text, the sender's id moves on by one modulo 2 ^ 32, and no part of the message is kept.
pub send_text_crosses :
    (R : Radio) (K : Kdf) (A : PskAead) (env_psk : Option (List ℕ)) (a : Air A.Cipher)
    (msg random sealed : List ℕ)
    → CanCross R K A env_psk a msg random sealed
    → (map' : Reassembler) × (send_text A (air_link R K A env_psk) msg random a ≡ (
      record a {
        sender = record a.sender { next_id = (a.sender.next_id + 1) % 2 ^ 32 };
        receiver = record a.receiver { rx = map' };
        shown = a.shown ++ (recv msg ∷ []);
      },
      true,
    ))
      × (lookup a.sender.next_id map' ≡ none)
unfolding send_text
send_text_crosses R K A env_psk a msg random sealed can = rw can.seals (
    rw (payload_mtu_lem a.sender.mtu_payload) (
      all_delivered K A env_psk (air_link R K A env_psk) a.receiver
        (at R K A env_psk (record a { sender = bump_id a.sender })) a.sender.next_id sealed msg _
        (cross-Carries R K A env_psk a msg random sealed can) sealed a.receiver.rx a.shown
        can.idle))
