-- ===== src/Frag/Assembly.antt =====
-- One call of `feed` on a fragment of a known message, and on a chunk of another one.
use bitchat_clone.Base.{
  ℕ, ◌<◌, ◌≤◌, ◌≡◌, ◌≢◌, ◌⊎◌, inl, inr, refl, sym, subst, ◌∙◌, true, false, List, [], Option, none,
  some, arith, length, get_elem?, get_or, lookup, insert, erase, lookup-insert, lookup-erase,
  some_inj, lt→ltb, ge→ltb,
}
use native.Mathlib.Decide.{dec_lt}
use bitchat_clone.Frag.{Chunk}
use bitchat_clone.Frag.Reassembler.{
  State, Reassembler, or_new, reset_for, store_part, finish, join, feed,
}
use bitchat_clone.Frag.Slots.{count_true-full}
use bitchat_clone.Frag.Split.{AreFragments, payloads, IsPiece}
use bitchat_clone.Frag.Holds.{
  Holds, Tracks, HasSlot, reset-Holds, reset_slot, store-Holds, store_slot, store_slot_kept,
  join-Holds, reset_back, store_slot_back,
}

-- What a call with a fragment of the message can do.
pub data Outcome (id i : ℕ) (cs : List Chunk) (map : Reassembler)
    : Reassembler × Option (List ℕ) → Type 0 where
  waits :
      {r : Reassembler × Option (List ℕ)}
      → r.1 ≡ none
      → Tracks id cs r.0
      → HasSlot id r.0 i
      → ((j : ℕ) → HasSlot id map j → HasSlot id r.0 j)
      → ((j : ℕ) → HasSlot id r.0 j → (j ≡ i) ⊎ HasSlot id map j)
      → Outcome id i cs map r
  completes :
      {r : Reassembler × Option (List ℕ)}
      → r.1 ≡ some (payloads cs)
      → lookup id r.0 ≡ none
      → ((j : ℕ) → j < length cs → (j ≡ i) ⊎ HasSlot id map j)
      → Outcome id i cs map r

lookup-insert_self :
    (id : ℕ) (st : State) (map : Reassembler) → lookup id (insert id st map) ≡ some st
lookup-insert_self id st map = rw (lookup-insert id id st map) (ground arith)

lookup-erase_self : (id : ℕ) (map : Reassembler) → lookup id (erase id map) ≡ none
lookup-erase_self id map = rw (lookup-erase id id map) (ground arith)

finish_waits :
    (map : Reassembler) (id : ℕ) (st : State)
    → st.received < st.total
    → finish map id st ≡ (insert id st map, none)
unfolding finish
finish_waits map id st l = rw (lt→ltb st.received st.total l)

finish_joins :
    (map : Reassembler) (id : ℕ) (st : State)
    → st.total ≤ st.received
    → finish map id st ≡ (erase id map, join st.total 0 st [])
unfolding finish
finish_joins map id st l = rw (ge→ltb st.received st.total l)

finish-Outcome :
    (id i : ℕ) (cs : List Chunk) (map : Reassembler) (st : State)
    → Holds cs st
    → get_or st.have i false ≡ true
    → ((j : ℕ) → HasSlot id map j → get_or st.have j false ≡ true)
    → ((j : ℕ) → get_or st.have j false ≡ true → (j ≡ i) ⊎ HasSlot id map j)
    → Outcome id i cs map (finish map id st)
finish-Outcome id i cs map st h slot kept back = elim (dec_lt st.received st.total) [
  | yes l ↦ rw (finish_waits map id st l) (
      waits refl (stays l) (st, lookup-insert_self id st map, slot)
        (λ j k. (st, lookup-insert_self id st map, kept j k)) undo)
  | no l ↦ rw (finish_joins map id st (omega arith)) (
      completes (join-Holds cs st h (omega arith)) (lookup-erase_self id map)
        (λ j l'. back j (full j (omega arith) l')))
]
  where
    undo : (j : ℕ) → HasSlot id (insert id st map) j → (j ≡ i) ⊎ HasSlot id map j
    undo j (st', e, k) = back j (
        subst (λ s. get_or s.have j false ≡ true) (some_inj (sym e ∙ lookup-insert_self id st map))
          k)

    full : (j : ℕ) → st.total ≤ st.received → j < length cs → get_or st.have j false ≡ true
    full j done l =
        count_true-full st.have j (omega (arith, h.valid.have_size, h.valid.counted))
          (omega (arith, h.valid.have_size, h.total_eq))

    stays : st.received < st.total → Tracks id cs (insert id st map)
    stays l st' e =
        subst (λ s. Holds cs s × (s.received < s.total))
          (some_inj (sym (lookup-insert_self id st map) ∙ e)) (h, l)

feed_valid :
    (map : Reassembler) (c : Chunk)
    → 0 < c.hdr.total
    → c.hdr.seq < c.hdr.total
    → c.hdr.len ≡ length c.payload
    → feed map c
      ≡ finish map c.hdr.msg_id (
          store_part c.hdr.seq c.payload (reset_for c.hdr.total (or_new (lookup c.hdr.msg_id map))))
unfolding feed
feed_valid map c t s l = ground arith

-- `feed` on a fragment of a tracked message either keeps the message tracked, with that fragment's
-- slot filled beside the slots that were, and returns nothing; or all other slots were filled, and
-- it returns the whole payload and forgets the message.
pub feed-Outcome :
    (id i : ℕ) (p : List ℕ) (cs : List Chunk) (map : Reassembler) (c : Chunk)
    → AreFragments id p cs
    → get_elem? cs i ≡ some c
    → Tracks id cs map
    → Outcome id i cs map (feed map c)
feed-Outcome id i p cs map c f e t = rw (whole) (finish-Outcome id i cs map st h slot kept back)
  where
    piece : IsPiece id (length cs) i c
    piece = f.pieces i c e

    st : State
    st = store_part i c.payload (reset_for (length cs) (or_new (lookup id map)))

    base : Holds cs (reset_for (length cs) (or_new (lookup id map)))
    base = reset-Holds id cs map f.some_chunk t

    h : Holds cs st
    h = store-Holds id cs _ i c e piece.place base

    slot : get_or st.have i false ≡ true
    slot = store_slot _ i c.payload (omega (arith, base.total_eq, piece.place)) base.valid

    kept : (j : ℕ) → HasSlot id map j → get_or st.have j false ≡ true
    kept j k = store_slot_kept _ i j c.payload (reset_slot id cs map j f.some_chunk t k)

    back : (j : ℕ) → get_or st.have j false ≡ true → (j ≡ i) ⊎ HasSlot id map j
    back j k = elim (store_slot_back _ i j c.payload k) [
      | inl same ↦ inl same
      | inr old ↦ inr (reset_back id cs map j f.some_chunk t old)
    ]

    whole : feed map c ≡ finish map id st
    whole =
        feed_valid map c (omega (arith, piece.total_eq, piece.place))
          (omega (arith, piece.total_eq, piece.seq_eq, piece.place)) piece.len_eq
        ∙ rw (piece.id_eq, piece.seq_eq, piece.total_eq)

-- `feed` touches no message but that of its chunk.
pub lookup-feed_ne :
    (id : ℕ) (map : Reassembler) (c : Chunk)
    → c.hdr.msg_id ≢ id
    → lookup id (feed map c).0 ≡ lookup id map
unfolding feed finish
lookup-feed_ne id map c ne = ground (
  arith,
  lookup-insert c.hdr.msg_id id
      (store_part c.hdr.seq c.payload (reset_for c.hdr.total (or_new (lookup c.hdr.msg_id map))))
      map,
  lookup-erase c.hdr.msg_id id map,
)
