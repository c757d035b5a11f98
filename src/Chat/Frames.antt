-- ===== src/Chat/Frames.antt =====
-- What the receiver makes of one frame of a message, and which frames are left.
use bitchat_clone.Base.{
  ℕ, suc, ◌+◌, ◌<◌, ◌≡◌, ◌⊎◌, inl, inr, ap, sym, ◌∙◌, subst, true, false, List, ◌∷◌, ◌++◌, Option,
  none, some, length, arith, get_elem?, lookup, IsU32,
}
use native.Mathlib.Decide.{ℕ_discrete}
use bitchat_clone.Aead.{PskAead}
use bitchat_clone.Frag.{Chunk}
use bitchat_clone.Frag.Wire.{serialize, parse, header_bytes}
use bitchat_clone.Frag.Reassembler.{Reassembler, feed}
use bitchat_clone.Frag.RoundTrip.{IsValid, parse-serialize, serialize_lem}
use bitchat_clone.Frag.Split.{AreFragments, IsPiece}
use bitchat_clone.Frag.Holds.{HasSlot}
use bitchat_clone.Chat.{ChatService, Kdf}
use bitchat_clone.Chat.Receive.{quiet, recv, aad, on_data, on_rx}
use bitchat_clone.Chat.Send.{is_empty}

-- A fragment has a valid header.
piece-IsValid :
    (id total i : ℕ) (c : Chunk) → IsU32 id → total < 65536 → IsPiece id total i c → IsValid c.hdr
piece-IsValid id total i c u t p = record {
  version = p.ver_eq;
  flags_byte = omega (arith, p.flags_le);
  id_range = omega (arith, p.id_eq);
  total_range = omega (arith, p.total_eq);
  in_range = omega (arith, p.seq_eq, p.total_eq, p.place);
  short = p.short;
}

module _ (K : Kdf) (A : PskAead) (env_psk : Option (List ℕ)) where
  pub on_data_waits :
      (s : ChatService A.Cipher) (f : List ℕ) (c : Chunk) (map : Reassembler)
      → parse f ≡ some c
      → feed s.rx c ≡ (map, none)
      → on_data K A env_psk s f ≡ (record s { rx = map }, quiet)
  unfolding on_data
  on_data_waits s f c map p e = rw (p, e)

  pub on_data_completes :
      (s : ChatService A.Cipher) (f : List ℕ) (c : Chunk) (map : Reassembler) (full msg : List ℕ)
      → parse f ≡ some c
      → feed s.rx c ≡ (map, some full)
      → A.unseal s.aead full aad ≡ some msg
      → s.tail_enabled ≡ true
      → on_data K A env_psk s f ≡ (record s { rx = map }, recv msg)
  unfolding on_data
  on_data_completes s f c map full msg p e u t = rw (p, e) (rw (u, t))

  pub on_rx_data :
      (s : ChatService A.Cipher) (f : List ℕ)
      → s.ctrl_hello_enabled ≡ false
      → on_rx K A env_psk s f ≡ on_data K A env_psk s f
  unfolding on_rx
  on_rx_data s f h = simp h

-- `ds` is what is left of `cs` from index `k` on.
pub record IsRest (cs : List Chunk) (k : ℕ) (ds : List Chunk) : Type 0 where
  pub size : length cs ≡ k + length ds
  pub elems : (j : ℕ) → get_elem? ds j ≡ get_elem? cs (k + j)

pub next-IsRest :
    (cs : List Chunk) (k : ℕ) (d : Chunk) (ds : List Chunk)
    → IsRest cs k (d ∷ ds)
    → IsRest cs (k + 1) ds
next-IsRest cs k d ds r = record {
  size = omega (arith, r.size);
  elems = λ j. r.elems (suc j) ∙ same (k + suc j) (k + 1 + j) (omega arith);
}
  where
    same : (a b : ℕ) → a ≡ b → get_elem? cs a ≡ get_elem? cs b
    same a b e = ap (get_elem? cs) e

-- The slots that are filled are those below `k`.
abbrev pub FilledBelow : ℕ → Reassembler → ℕ → Type 0
FilledBelow id map k = (j : ℕ) → (HasSlot id map j → j < k) × (j < k → HasSlot id map j)

-- The bytes of a fragment.
module _ (id : ℕ) (p : List ℕ) (cs : List Chunk) (m : AreFragments id p cs) (u : IsU32 id) where
  valid : (i : ℕ) (c : Chunk) → get_elem? cs i ≡ some c → IsValid c.hdr
  valid i c e = piece-IsValid id (length cs) i c u m.few (m.pieces i c e)

  frame_bytes :
      (i : ℕ) (c : Chunk) → get_elem? cs i ≡ some c → serialize c ≡ header_bytes c.hdr ++ c.payload
  frame_bytes i c e = serialize_lem c (valid i c e) (sym (m.pieces i c e).len_eq)

  pub frame_full : (i : ℕ) (c : Chunk) → get_elem? cs i ≡ some c → is_empty (serialize c) ≡ false
  frame_full i c e = rw (frame_bytes i c e)

  pub frame_size :
      (i : ℕ) (c : Chunk) → get_elem? cs i ≡ some c → length (serialize c) ≡ c.hdr.len + 12
  frame_size i c e = rw (frame_bytes i c e) (omega (arith, (m.pieces i c e).len_eq))

  pub frame_parse : (i : ℕ) (c : Chunk) → get_elem? cs i ≡ some c → parse (serialize c) ≡ some c
  frame_parse i c e = parse-serialize c (valid i c e) (sym (m.pieces i c e).len_eq)

-- The slots after one more fragment.
pub filled_next :
    (id k : ℕ) (map map' : Reassembler)
    → FilledBelow id map k
    → HasSlot id map' k
    → ((j : ℕ) → HasSlot id map j → HasSlot id map' j)
    → ((j : ℕ) → HasSlot id map' j → (j ≡ k) ⊎ HasSlot id map j)
    → FilledBelow id map' (k + 1)
filled_next id k map map' b s kept q = λ j. (λ h. lower j (q j h), λ l. slot j l (ℕ_discrete k j))
  where
    lower : (j : ℕ) → (j ≡ k) ⊎ HasSlot id map j → j < k + 1
    lower j (inl same) = omega arith
    lower j (inr old) = omega (arith, (b j).0 old)

    slot : (j : ℕ) → j < k + 1 → Dec (k ≡ j) → HasSlot id map' j
    slot j l (yes same) = subst (HasSlot id map') same s
    slot j l (no other) = kept j ((b j).1 (omega arith))

pub head_at :
    (cs : List Chunk) (k : ℕ) (c : Chunk) (ds : List Chunk)
    → IsRest cs k (c ∷ ds)
    → get_elem? cs k ≡ some c
head_at cs k c ds r = at_index (k + 0) k (omega arith) ∙ sym (r.elems 0)
  where
    at_index : (a b : ℕ) → a ≡ b → get_elem? cs b ≡ get_elem? cs a
    at_index a b e = ap (get_elem? cs) (sym e)

pub nothing_filled : (id : ℕ) (map : Reassembler) → lookup id map ≡ none → FilledBelow id map 0
nothing_filled id map e = λ j. (λ h. absurd (cc (e, h.1)), λ l. absurd (omega arith))

pub whole-IsRest : (cs : List Chunk) → IsRest cs 0 cs
whole-IsRest cs = record { size = omega arith; elems = λ j. ap (get_elem? cs) (zero_add j) }
  where
    zero_add : (j : ℕ) → j ≡ 0 + j
    zero_add j = omega arith
