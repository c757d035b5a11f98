-- ===== src/Bluez/EndToEnd/Back.antt =====
-- A text from a peripheral to a central: `ChatService::send_text`, the transport's `send`, and the
-- subscription of the central, which does not take the signal.
use bitchat_clone.Base.{
  ℕ, suc, ◌+◌, ◌-◌, ◌%◌, ◌^◌, ◌<◌, ◌≤◌, ◌≡◌, refl, ◌∙◌, true, false, List, [], ◌∷◌, Option, some,
  length, arith, get_elem?, IsU32,
}
use bitchat_clone.Aead.{PskAead}
use bitchat_clone.Frag.{Chunk}
use bitchat_clone.Frag.Chunks.{num_chunks}
use bitchat_clone.Frag.Wire.{serialize}
use bitchat_clone.Frag.Split.{AreFragments, make_chunks-AreFragments}
use bitchat_clone.Chat.{ChatService, Kdf}
use bitchat_clone.Chat.Receive.{Shown, aad}
use bitchat_clone.Chat.Send.{is_empty, send_frames, send_chunks, send_text, bump_id}
use bitchat_clone.Chat.Frames.{frame_full}
use bitchat_clone.Chat.Transfer.{payload_mtu_lem, send_chunks-cons}
use bitchat_clone.Bluez.EndToEnd.{no_bytes_lem}
use bitchat_clone.Bluez.Air.{Air, Radio, air_link, IsUnheard, unheard}

module _ (R : Radio) (K : Kdf) (A : PskAead) (env_psk : Option (List ℕ)) where
  pub still-IsUnheard :
      (a : Air A.Cipher) (s t : ChatService A.Cipher) (lines : List Shown)
      → IsUnheard R a
      → IsUnheard R (record a { sender = s; receiver = t; shown = lines })
  still-IsUnheard a s t lines u = record {
    has = u.has;
    role = u.role;
    impl = u.impl;
    runs = u.runs;
    bus = u.bus;
    notifying = u.notifying;
    exact = u.exact;
    elsewhere = u.elsewhere;
  }

  frames-unheard :
      (a : Air A.Cipher) (cs : List Chunk)
      → IsUnheard R a
      → ((i : ℕ) (c : Chunk) → get_elem? cs i ≡ some c → is_empty (serialize c) ≡ false)
      → send_frames (air_link R K A env_psk) cs a ≡ (a, true)
  unfolding send_frames
  frames-unheard a [] u full = refl
  frames-unheard a (c ∷ cs) u full =
      let f : is_empty (serialize c) ≡ false = full 0 c refl in
      rw (f, unheard R K A env_psk a (serialize c) u (no_bytes_lem (serialize c) f))
        (frames-unheard a cs u (λ i. full (suc i)))

  chunks-unheard :
      (a : Air A.Cipher) (id : ℕ) (p sealed : List ℕ) (cs : List Chunk)
      → IsUnheard R a
      → AreFragments id p cs
      → IsU32 id
      → send_chunks (air_link R K A env_psk) sealed cs a ≡ (a, true)
  chunks-unheard a id p sealed [] u pieces range = absurd (omega (arith, pieces.some_chunk))
  chunks-unheard a id p sealed (c ∷ cs) u pieces range =
      send_chunks-cons (air_link R K A env_psk) sealed c cs a
      ∙ frames-unheard a (c ∷ cs) u (frame_full id p (c ∷ cs) pieces range)

  -- A text from a peripheral that runs and has a subscriber, with a frame size of 13 to 112 bytes, that
  -- can be sealed and needs at most 65535 chunks: the call succeeds and the sender's id moves on by
  -- one modulo 2 ^ 32, but the central shows nothing and is as it was, since its subscription to
  -- PropertiesChanged takes the signals of the root object only, if the bus takes for a subscription
  -- exactly the object that its rule names.
  pub send_text_unheard :
      (a : Air A.Cipher) (msg random sealed : List ℕ)
      → IsUnheard R a
      → 12 < a.sender.mtu_payload
      → a.sender.mtu_payload ≤ 112
      → A.seal a.sender.aead msg aad random ≡ some sealed
      → num_chunks (length sealed) (a.sender.mtu_payload - 12) ≤ 65535
      → IsU32 a.sender.next_id
      → send_text A (air_link R K A env_psk) msg random a ≡ (
        record a { sender = record a.sender { next_id = (a.sender.next_id + 1) % 2 ^ 32 } },
        true,
      )
  unfolding send_text
  send_text_unheard a msg random sealed u room small seals few range = rw seals (
      rw (payload_mtu_lem a.sender.mtu_payload) (
        chunks-unheard (record a { sender = bump_id a.sender }) a.sender.next_id sealed sealed _
          (still-IsUnheard a (bump_id a.sender) a.receiver a.shown u)
          (make_chunks-AreFragments a.sender.next_id sealed _
            (omega (arith, room), omega (arith, small), few))
          range))
