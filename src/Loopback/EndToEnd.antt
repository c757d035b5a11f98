-- ===== src/Loopback/EndToEnd.antt =====
-- A text through the whole program on a loopback link: `ChatService::send_text` seals and cuts it,
-- `LoopbackTransport::send` hands the frames to `ChatService::on_rx`, which joins and opens it.
use bitchat_clone.Base.{
  ℕ, ◌+◌, ◌-◌, ◌%◌, ◌^◌, ◌<◌, ◌≤◌, ◌≡◌, ◌≢◌, ◌⊎◌, inl, inr, refl, ap, ◌∙◌, true, false, List, [],
  ◌∷◌, ◌++◌, Option, none, some, length, arith, lookup, IsU32,
}
use bitchat_clone.Aead.{PskAead}
use bitchat_clone.Frag.{Chunk}
use bitchat_clone.Frag.Chunks.{make_chunks, num_chunks}
use bitchat_clone.Frag.Wire.{serialize}
use bitchat_clone.Frag.Reassembler.{Reassembler}
use bitchat_clone.Frag.Split.{
  Fits, AreFragments, make_chunks-AreFragments, make_chunks_short, make_chunks-nil,
}
use bitchat_clone.Chat.{Kdf}
use bitchat_clone.Chat.Receive.{Shown, recv, aad}
use bitchat_clone.Chat.Send.{Link, send_chunks, send_text, payload_mtu, bump_id}
use bitchat_clone.Chat.Frames.{on_rx_data, frame_size}
use bitchat_clone.Chat.Transfer.{Brings, Carries, all_delivered, payload_mtu_lem}
use bitchat_clone.Loopback.{Loopback, World, accepts, send, link, deliver}

accepts_lem :
    (t : Loopback) (f : List ℕ)
    → t.started ≡ true
    → t.attached ≡ true
    → length f ≤ t.mtu
    → accepts t f ≡ true
unfolding accepts
accepts_lem t f s a l = ground arith

module _ (K : Kdf) (A : PskAead) (env_psk : Option (List ℕ)) where
  -- The world with another map and another list of lines.
  abbrev pub at : World A.Cipher → Reassembler → List Shown → World A.Cipher
  at w map lines = record w { service = record w.service { rx = map }; shown = lines }

  -- The link is up, and the service shows what it receives.
  pub record IsUp (w : World A.Cipher) : Type 0 where
    pub started : w.tx.started ≡ true
    pub attached : w.tx.attached ≡ true
    pub no_hello : w.service.ctrl_hello_enabled ≡ false
    pub tail : w.service.tail_enabled ≡ true

  send-Brings :
      (w : World A.Cipher) (f : List ℕ)
      → IsUp w
      → length f ≤ w.tx.mtu
      → Brings K A env_psk (link K A env_psk) w.service (at w) f
  unfolding send
  send-Brings w f up l = λ map map' lines line e. rw (accepts_lem w.tx f up.started up.attached l) (
      ap (λ r. (deliver K A env_psk (at w map lines) r, true))
        (on_rx_data K A env_psk (record w.service { rx = map }) f up.no_hello ∙ e))

-- The service has a frame size for which chunks can be made, the message fits, its cipher opens
-- what it seals, and no part of a message with the next id waits for the rest.
pub record CanSend (K : Kdf) (A : PskAead) (env_psk : Option (List ℕ)) (w : World A.Cipher)
    (msg random sealed : List ℕ) : Type 0 where
  pub up : IsUp K A env_psk w
  pub same_mtu : w.tx.mtu ≡ w.service.mtu_payload
  pub room : 12 < w.service.mtu_payload
  pub small : w.service.mtu_payload ≤ 112
  pub seals : A.seal w.service.aead msg aad random ≡ some sealed
  pub opens : A.unseal w.service.aead sealed aad ≡ some msg
  pub few : num_chunks (length sealed) (w.service.mtu_payload - 12) ≤ 65535
  pub id_range : IsU32 w.service.next_id
  pub idle : lookup w.service.next_id w.service.rx ≡ none

can-Carries :
    (K : Kdf) (A : PskAead) (env_psk : Option (List ℕ)) (w : World A.Cipher)
    (msg random sealed : List ℕ)
    → CanSend K A env_psk w msg random sealed
    → Carries K A env_psk
        (link K A env_psk)
        (bump_id w.service)
        (at K A env_psk (record w { service = bump_id w.service }))
        w.service.next_id
        sealed
        msg
        (make_chunks w.service.next_id sealed (w.service.mtu_payload - 12))
can-Carries K A env_psk w msg random sealed can = record {
  tail = can.up.tail;
  fragments = pieces;
  id_range = can.id_range;
  opens = can.opens;
  brings = λ i c e.
      send-Brings K A env_psk (record w { service = bump_id w.service }) (serialize c)
        (record {
          started = can.up.started;
          attached = can.up.attached;
          no_hello = can.up.no_hello;
          tail = can.up.tail;
        })
        (omega (
          arith,
          can.same_mtu,
          can.room,
          frame_size w.service.next_id sealed _ pieces can.id_range i c e,
          make_chunks_short w.service.next_id sealed _ i c fits e,
          (pieces.pieces i c e).len_eq,
        ));
}
  where
    fits : Fits sealed (w.service.mtu_payload - 12)
    fits = (omega (arith, can.room), omega (arith, can.small), can.few)

    pieces :
        AreFragments w.service.next_id sealed
          (make_chunks w.service.next_id sealed (w.service.mtu_payload - 12))
    pieces = make_chunks-AreFragments w.service.next_id sealed _ fits

-- A text sent over the loopback link with a frame size of 13 to 112 bytes, under the conditions of
-- `CanSend`, comes back whole: the call succeeds, the one line shown is the text, the id moves on by
-- one modulo 2 ^ 32, and no part of the message is kept.
pub send_text_delivers :
    (K : Kdf) (A : PskAead) (env_psk : Option (List ℕ)) (w : World A.Cipher)
    (msg random sealed : List ℕ)
    → CanSend K A env_psk w msg random sealed
    → (map' : Reassembler) × (send_text A (link K A env_psk) msg random w ≡ (
      record w {
        service = record w.service { next_id = (w.service.next_id + 1) % 2 ^ 32; rx = map' };
        shown = w.shown ++ (recv msg ∷ []);
      },
      true,
    ))
      × (lookup w.service.next_id map' ≡ none)
unfolding send_text
send_text_delivers K A env_psk w msg random sealed can = rw can.seals (
    rw (payload_mtu_lem w.service.mtu_payload) (
      all_delivered K A env_psk (link K A env_psk) (bump_id w.service)
        (at K A env_psk (record w { service = bump_id w.service })) w.service.next_id sealed msg _
        (can-Carries K A env_psk w msg random sealed can) sealed w.service.rx w.shown can.idle))

-- Over any transport, a text whose sealed form is not empty is refused before a frame is sent, though
-- the id moves on, if the frame size is at most 12 bytes or more than 112: no chunk can be made.
pub send_text_refused :
    (A : PskAead) (L : Link A.Cipher) (w : L.World) (msg random sealed : List ℕ)
    → A.seal (L.service w).aead msg aad random ≡ some sealed
    → sealed ≢ []
    → ((L.service w).mtu_payload ≤ 12) ⊎ (112 < (L.service w).mtu_payload)
    → send_text A L msg random w ≡ (L.put_service w (bump_id (L.service w)), false)
unfolding send_text
send_text_refused A L w msg random sealed e n h = rw e (go sealed _ n refused)
  where
    bad_size :
        ((L.service w).mtu_payload ≤ 12) ⊎ (112 < (L.service w).mtu_payload)
        → (payload_mtu (L.service w).mtu_payload < 1)
          ⊎ (100 < payload_mtu (L.service w).mtu_payload)
          ⊎ ((sealed ≢ [])
              × (65535 < num_chunks (length sealed) (payload_mtu (L.service w).mtu_payload)))
    bad_size (inl small) = inl (rw (payload_mtu_lem (L.service w).mtu_payload) (omega arith))
    bad_size (inr large) = inr (inl (rw (payload_mtu_lem (L.service w).mtu_payload) (omega arith)))

    refused : make_chunks (L.service w).next_id sealed (payload_mtu (L.service w).mtu_payload) ≡ []
    refused = (make_chunks-nil _ sealed _).1 (bad_size h)

    go :
        (sealed : List ℕ) (cs : List Chunk)
        → sealed ≢ []
        → cs ≡ []
        → send_chunks L sealed cs (L.put_service w (bump_id (L.service w)))
          ≡ (L.put_service w (bump_id (L.service w)), false)
    go [] cs n q = absurd (n refl)
    go (x ∷ xs) cs n q = rw q
