-- ===== src/Chat/Transfer.antt =====
-- The frames of one message over any link: each is written, carried, read and joined.
use bitchat_clone.Base.{
  ℕ, ◌+◌, ◌-◌, ◌≡◌, ◌⊎◌, inl, inr, refl, ap, ◌∙◌, true, false, List, [], ◌∷◌, ◌++◌, Option, none,
  some, arith, get_elem?, get_elem?_lt, lookup, IsU32,
}
use bitchat_clone.Aead.{PskAead}
use bitchat_clone.Frag.{Chunk}
use bitchat_clone.Frag.Wire.{serialize}
use bitchat_clone.Frag.Reassembler.{Reassembler, feed}
use bitchat_clone.Frag.Split.{AreFragments, payloads}
use bitchat_clone.Frag.Holds.{Tracks, HasSlot}
use bitchat_clone.Frag.Assembly.{Outcome, waits, completes, feed-Outcome}
use bitchat_clone.Frag.Delivery.{not_all_stored, Tracks-none}
use bitchat_clone.Chat.{ChatService, Kdf}
use bitchat_clone.Chat.Receive.{Shown, quiet, recv, log, aad, on_data}
use bitchat_clone.Chat.Send.{Link, payload_mtu, is_empty, send_frames, send_chunks}
use bitchat_clone.Chat.Frames.{
  on_data_waits, on_data_completes, IsRest, next-IsRest, FilledBelow, frame_full, frame_parse,
  filled_next, head_at, nothing_filled, whole-IsRest,
}

-- `r` is the receiver, but for its map, and `at` the world with a map of the receiver and the lines
-- that it has shown.
module _ (K : Kdf) (A : PskAead) (env_psk : Option (List ℕ)) (L : Link A.Cipher)
    (r : ChatService A.Cipher) (at : Reassembler → List Shown → L.World) where
  send_frames_step :
      (c : Chunk) (cs : List Chunk) (w w' : L.World)
      → is_empty (serialize c) ≡ false
      → L.send w (serialize c) ≡ (w', true)
      → send_frames L (c ∷ cs) w ≡ send_frames L cs w'
  unfolding send_frames
  send_frames_step c cs w w' full e = rw (full, e)

  -- The link brings a frame to the receiver's data path.
  abbrev pub Brings : List ℕ → Type 0
  Brings f =
      (map map' : Reassembler) (lines : List Shown) (line : Shown)
      → on_data K A env_psk (record r { rx = map }) f ≡ (record r { rx = map' }, line)
      → L.send (at map lines) f ≡ (at map' (log lines line), true)

  -- The message that the frames carry, and what the link and the receiver do with them.
  pub record Carries (id : ℕ) (p msg : List ℕ) (cs : List Chunk) : Type 0 where
    pub tail : r.tail_enabled ≡ true
    pub fragments : AreFragments id p cs
    pub id_range : IsU32 id
    pub opens : A.unseal r.aead p aad ≡ some msg
    pub brings : (i : ℕ) (c : Chunk) → get_elem? cs i ≡ some c → Brings (serialize c)

module _ (K : Kdf) (A : PskAead) (env_psk : Option (List ℕ)) (L : Link A.Cipher)
    (r : ChatService A.Cipher) (at : Reassembler → List Shown → L.World) (id : ℕ) (p msg : List ℕ)
    (cs : List Chunk) (m : Carries K A env_psk L r at id p msg cs) where
  frame_waits :
      (i : ℕ) (c : Chunk) (map : Reassembler) (lines : List Shown)
      → get_elem? cs i ≡ some c
      → (feed map c).1 ≡ none
      → L.send (at map lines) (serialize c) ≡ (at (feed map c).0 lines, true)
  frame_waits i c map lines e n = m.brings i c e map (feed map c).0 lines quiet (
      on_data_waits K A env_psk _ (serialize c) c _
        (frame_parse id p cs m.fragments m.id_range i c e) (λ k. ((feed map c).0, n k)))

  frame_completes :
      (i : ℕ) (c : Chunk) (map : Reassembler) (lines : List Shown)
      → get_elem? cs i ≡ some c
      → (feed map c).1 ≡ some (payloads cs)
      → L.send (at map lines) (serialize c) ≡ (at (feed map c).0 (lines ++ (recv msg ∷ [])), true)
  frame_completes i c map lines e n = m.brings i c e map (feed map c).0 lines (recv msg) (
      on_data_completes K A env_psk _ (serialize c) c _ p msg
        (frame_parse id p cs m.fragments m.id_range i c e)
        (λ k. ((feed map c).0, (n ∙ ap some m.fragments.joined) k)) m.opens m.tail)

  -- The whole message went out, and was shown as one line.
  abbrev pub Delivered : List Chunk → Reassembler → List Shown → Type 0
  Delivered ds map lines =
      (map' : Reassembler) × (send_frames L ds (at map lines)
        ≡ (at map' (lines ++ (recv msg ∷ [])), true))
      × (lookup id map' ≡ none)

  last_frame :
      (k : ℕ) (c : Chunk) (map : Reassembler) (lines : List Shown)
      → IsRest cs k (c ∷ [])
      → get_elem? cs k ≡ some c
      → FilledBelow id map k
      → Outcome id k cs map (feed map c)
      → Delivered (c ∷ []) map lines
  last_frame k c map lines rest e b (completes d l q) = (
    (feed map c).0,
    send_frames_step K A env_psk L r at c [] _ _ (frame_full id p cs m.fragments m.id_range k c e)
          (frame_completes k c map lines e d)
        ∙ unfold send_frames in refl,
    l,
  )
  last_frame k c map lines rest e b (waits n t s kept q) = absurd (
      not_all_stored id cs (feed map c).0 m.fragments.some_chunk t (λ j d e'. inl (
        (filled_next id k map (feed map c).0 b s kept q j).1
          (omega (arith, rest.size, get_elem?_lt cs j e')))))

  inner_frame :
      (k : ℕ) (c d : Chunk) (ds : List Chunk) (map : Reassembler) (lines : List Shown)
      → IsRest cs k (c ∷ d ∷ ds)
      → get_elem? cs k ≡ some c
      → FilledBelow id map k
      → Outcome id k cs map (feed map c)
      → (Tracks id cs (feed map c).0
          → FilledBelow id (feed map c).0 (k + 1)
          → Delivered (d ∷ ds) (feed map c).0 lines)
      → Delivered (c ∷ d ∷ ds) map lines
  inner_frame k c d ds map lines rest e b (completes n l q) later =
      absurd (gap (q (k + 1) (omega (arith, rest.size))))
    where
      gap : (k + 1 ≡ k) ⊎ HasSlot id map (k + 1) → ⊥
      gap (inl same) = absurd (omega arith)
      gap (inr h) = absurd (omega (arith, (b (k + 1)).0 h))
  inner_frame k c d ds map lines rest e b (waits n t s kept q) later =
      let (map', sent, gone) = later t (filled_next id k map (feed map c).0 b s kept q) in
      (
        map',
        send_frames_step K A env_psk L r at c (d ∷ ds) _ _
              (frame_full id p cs m.fragments m.id_range k c e) (frame_waits k c map lines e n)
            ∙ sent,
        gone,
      )

  pub frames-Delivered :
      (k : ℕ) (c : Chunk) (ds : List Chunk) (map : Reassembler) (lines : List Shown)
      → IsRest cs k (c ∷ ds)
      → Tracks id cs map
      → FilledBelow id map k
      → Delivered (c ∷ ds) map lines
  frames-Delivered k c [] map lines rest t b =
      last_frame k c map lines rest (head_at cs k c [] rest) b
        (feed-Outcome id k p cs map c m.fragments (head_at cs k c [] rest) t)
  frames-Delivered k c (d ∷ ds) map lines rest t b =
      inner_frame k c d ds map lines rest (head_at cs k c (d ∷ ds) rest) b
        (feed-Outcome id k p cs map c m.fragments (head_at cs k c (d ∷ ds) rest) t)
        (λ t' b'.
          frames-Delivered (k + 1) d ds (feed map c).0 lines (next-IsRest cs k c (d ∷ ds) rest) t'
            b')

pub send_chunks-cons :
    {Cipher : Type 0} (L : Link Cipher) (sealed : List ℕ) (c : Chunk) (cs : List Chunk)
    (w : L.World)
    → send_chunks L sealed (c ∷ cs) w ≡ send_frames L (c ∷ cs) w
send_chunks-cons L [] c cs w = refl
send_chunks-cons L (x ∷ xs) c cs w = refl

pub payload_mtu_lem : (m : ℕ) → payload_mtu m ≡ m - 12
payload_mtu_lem m = ground arith

-- From an empty slot all the fragments of a message are delivered.
pub all_delivered :
    (K : Kdf) (A : PskAead) (env_psk : Option (List ℕ)) (L : Link A.Cipher)
    (r : ChatService A.Cipher) (at : Reassembler → List Shown → L.World) (id : ℕ) (p msg : List ℕ)
    (cs : List Chunk) (m : Carries K A env_psk L r at id p msg cs) (sealed : List ℕ)
    (map : Reassembler) (lines : List Shown)
    → lookup id map ≡ none
    → (map' : Reassembler) × (send_chunks L sealed cs (at map lines)
        ≡ (at map' (lines ++ (recv msg ∷ [])), true))
      × (lookup id map' ≡ none)
all_delivered K A env_psk L r at id p msg [] m sealed map lines e =
    absurd (omega (arith, m.fragments.some_chunk))
all_delivered K A env_psk L r at id p msg (c ∷ cs) m sealed map lines e =
    let (map', sent, gone) =
      frames-Delivered K A env_psk L r at id p msg (c ∷ cs) m 0 c cs map lines
        (whole-IsRest (c ∷ cs)) (Tracks-none id (c ∷ cs) map e) (nothing_filled id map e) in
    (map', send_chunks-cons L sealed c cs _ ∙ sent, gone)
