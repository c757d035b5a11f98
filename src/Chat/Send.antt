-- ===== src/Chat/Send.antt =====
-- `ChatService::send_text` of src/app/chat_service.cpp.
use bitchat_clone.Base.{
  ℕ, ◌+◌, ◌-◌, ◌%◌, ◌^◌, Bool, true, false, not, ◌&&◌, List, [], ◌∷◌, Option, none, some,
  if◌then◌else◌, ltb, ◌==◌,
}
use bitchat_clone.Aead.{PskAead}
use bitchat_clone.Frag.{Chunk, hdr_size}
use bitchat_clone.Frag.Chunks.{make_chunks}
use bitchat_clone.Frag.Wire.{serialize}
use bitchat_clone.Chat.{ChatService}
use bitchat_clone.Chat.Receive.{aad}

-- The service in a world with a transport. Sending is a step of the whole world, since a transport
-- may call back into the service.
pub record Link (Cipher : Type 0) : Type 1 where
  pub World : Type 0
  pub service : World → ChatService Cipher
  pub put_service : World → ChatService Cipher → World
  pub send : World → List ℕ → World × Bool

abbrev pub is_empty : {A : Type 0} → List A → Bool
is_empty [] = true
is_empty (x ∷ xs) = false

abbrev pub payload_mtu : ℕ → ℕ
payload_mtu frame_mtu = if ltb hdr_size frame_mtu then frame_mtu - hdr_size else 0

-- `next_id_` is 32 bits wide.
abbrev pub bump_id : {Cipher : Type 0} → ChatService Cipher → ChatService Cipher
bump_id s = record s { next_id = (s.next_id + 1) % 2 ^ 32 }

module _ {Cipher : Type 0} (L : Link Cipher) where
  open L use {World, send}

  -- Step 3, which stops at the first frame that cannot be made or sent.
  unfoldable pub send_frames : List Chunk → World → World × Bool
  send_frames [] w = (w, true)
  send_frames (c ∷ cs) w =
      let (w', ok) = send w (serialize c) in
      let rest = send_frames cs w' in
      if is_empty (serialize c) && not (c.hdr.len == 0)
      then (w, false)
      else if ok
      then rest
      else (w', false)

  abbrev pub send_chunks : List ℕ → List Chunk → World → World × Bool
  send_chunks sealed chunks w =
      if not (is_empty sealed) && is_empty chunks then (w, false) else send_frames chunks w

module _ (A : PskAead) (L : Link A.Cipher) where
  open L use {World, service, put_service}

  abbrev pub send_sealed : Option (List ℕ) → World → World × Bool
  send_sealed none w = (w, false)
  send_sealed (some sealed) w =
      let s = service w in
      send_chunks L sealed (make_chunks s.next_id sealed (payload_mtu s.mtu_payload))
        (put_service w (bump_id s))

  -- The random bytes are those that `seal` draws.
  unfoldable pub send_text : List ℕ → List ℕ → World → World × Bool
  send_text msg random w = send_sealed (A.seal (service w).aead msg aad random) w
