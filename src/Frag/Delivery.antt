-- ===== src/Frag/Delivery.antt =====
-- What a receiver gets from a sequence of calls of `feed`, in any order.
use bitchat_clone.Base.{
  ℕ, zero, suc, ◌<◌, ◌≡◌, ◌≢◌, ◌⊎◌, inl, inr, refl, sym, ap, subst, ◌∙◌, true, false, List, [], ◌∷◌,
  Option, none, some, arith, length, get_elem?, get_or, lookup, All, some_inj,
}
use mathlib.Core.Path.{ap₂}
use bitchat_clone.Frag.{Chunk}
use bitchat_clone.Frag.Reassembler.{State, Reassembler, feed}
use bitchat_clone.Frag.Slots.{full-count_true}
use bitchat_clone.Frag.Split.{AreFragments, payloads}
use bitchat_clone.Frag.Holds.{Tracks, HasSlot}
use bitchat_clone.Frag.Assembly.{Outcome, waits, completes, feed-Outcome, lookup-feed_ne}

-- A completed message with its id.
abbrev pub Delivery : Type 0
Delivery = ℕ × List ℕ

abbrev note : ℕ → Option (List ℕ) → List Delivery → List Delivery
note id none rest = rest
note id (some p) rest = (id, p) ∷ rest

-- What the calls of `feed` return, one chunk after the other.
unfoldable pub deliveries : Reassembler → List Chunk → List Delivery
deliveries map [] = []
deliveries map (c ∷ cs) =
    let (map', result) = feed map c in note c.hdr.msg_id result (deliveries map' cs)

-- The element stands in the list.
abbrev pub Occurs : {A : Type 0} → A → List A → Type 0
Occurs x [] = ⊥
Occurs x (y ∷ ys) = (y ≡ x) ⊎ Occurs x ys

-- A chunk of another message, or one of the fragments `cs`.
abbrev pub IsGenuine : ℕ → List Chunk → Chunk → Type 0
IsGenuine id cs c = (c.hdr.msg_id ≢ id) ⊎ ((i : ℕ) × (get_elem? cs i ≡ some c))

abbrev pub Right : ℕ → List ℕ → Delivery → Type 0
Right id p d = d.0 ≡ id → d.1 ≡ p

pub Tracks-none :
    (id : ℕ) (cs : List Chunk) (map : Reassembler) → lookup id map ≡ none → Tracks id cs map
Tracks-none id cs map e = λ st e'. absurd (cc (e, e'))

Tracks-same :
    (id : ℕ) (cs : List Chunk) (map map' : Reassembler)
    → lookup id map' ≡ lookup id map
    → Tracks id cs map
    → Tracks id cs map'
Tracks-same id cs map map' e t = λ st e'. t st (sym e ∙ e')

Right-other :
    (id id' : ℕ) (p : List ℕ) (o : Option (List ℕ)) (ds : List Delivery)
    → id' ≢ id
    → All (Right id p) ds
    → All (Right id p) (note id' o ds)
Right-other id id' p none ds ne h = h
Right-other id id' p (some q) ds ne h = (λ e. absurd (ne e), h)

Right-own :
    (id i id' : ℕ) (p : List ℕ) (cs : List Chunk) (map : Reassembler)
    (r : Reassembler × Option (List ℕ)) (ds : List Delivery)
    → payloads cs ≡ p
    → Outcome id i cs map r
    → (Tracks id cs r.0 → All (Right id p) ds)
    → All (Right id p) (note id' r.1 ds)
Right-own id i id' p cs map r ds j (waits e t s k b) later = rw e (later t)
Right-own id i id' p cs map r ds j (completes e l b) later =
    rw e (λ _. j, later (Tracks-none id cs r.0 l))

-- If every chunk that arrives for the message `id` is one of its fragments, in any order, repeated
-- or lost, and between chunks of other messages, then whatever is delivered as `id` is its payload.
pub deliveries-Right :
    (id : ℕ) (p : List ℕ) (cs incoming : List Chunk) (map : Reassembler)
    → AreFragments id p cs
    → Tracks id cs map
    → All (IsGenuine id cs) incoming
    → All (Right id p) (deliveries map incoming)
unfolding deliveries
deliveries-Right id p cs [] map f t g = tt
deliveries-Right id p cs (c ∷ rest) map f t (inl ne, g) =
    Right-other id c.hdr.msg_id p (feed map c).1 (deliveries (feed map c).0 rest) ne (
      deliveries-Right id p cs rest (feed map c).0 f
        (Tracks-same id cs map _ (lookup-feed_ne id map c ne) t) g)
deliveries-Right id p cs (c ∷ rest) map f t (inr (i, e), g) =
    Right-own id i c.hdr.msg_id p cs map (feed map c) (deliveries (feed map c).0 rest) f.joined
      (feed-Outcome id i p cs map c f e t)
      (λ t'. deliveries-Right id p cs rest (feed map c).0 f t' g)

-- Each fragment has been stored already, or is still to come.
abbrev pub Covers : ℕ → List Chunk → Reassembler → List Chunk → Type 0
Covers id cs map incoming =
    (i : ℕ) (c : Chunk) → get_elem? cs i ≡ some c → HasSlot id map i ⊎ Occurs c incoming

slot_in :
    (id i : ℕ) (map : Reassembler) (st : State)
    → lookup id map ≡ some st
    → HasSlot id map i
    → get_or st.have i false ≡ true
slot_in id i map st e (st', e', h) =
    subst (λ s. get_or s.have i false ≡ true) (some_inj (sym e' ∙ e)) h

pub piece_at : (cs : List Chunk) (i : ℕ) → i < length cs → (c : Chunk) × (get_elem? cs i ≡ some c)
piece_at [] i h = absurd (omega arith)
piece_at (c ∷ cs) zero h = (c, refl)
piece_at (c ∷ cs) (suc i) h = piece_at cs i (omega arith)

-- A message cannot wait with all of its slots filled.
pub not_all_stored :
    (id : ℕ) (cs : List Chunk) (map : Reassembler)
    → 0 < length cs
    → Tracks id cs map
    → ¬ Covers id cs map []
not_all_stored id cs map pos t covers = stuck (slot_of 0 pos)
  where
    slot_of : (i : ℕ) → i < length cs → HasSlot id map i
    slot_of i l =
        let (c, e) = piece_at cs i l in elim (covers i c e) [ inl h ↦ h | inr b ↦ absurd b ]

    stuck : HasSlot id map 0 → ⊥
    stuck (st, e, h) =
        let (holds, pending) = t st e in
        let full = full-count_true st.have (λ i l.
          slot_in id i map st e
            (slot_of i (omega (arith, holds.valid.have_size, holds.total_eq)))) in
        absurd (omega (arith, full, holds.valid.have_size, holds.valid.counted))

Occurs-note :
    (id id' : ℕ) (p : List ℕ) (o : Option (List ℕ)) (ds : List Delivery)
    → Occurs (id, p) ds
    → Occurs (id, p) (note id' o ds)
Occurs-note id id' p none ds h = h
Occurs-note id id' p (some q) ds h = inr h

Covers-other :
    (id : ℕ) (p : List ℕ) (cs rest : List Chunk) (map map' : Reassembler) (c : Chunk)
    → AreFragments id p cs
    → c.hdr.msg_id ≢ id
    → lookup id map' ≡ lookup id map
    → Covers id cs map (c ∷ rest)
    → Covers id cs map' rest
Covers-other id p cs rest map map' c f ne same covers i d e = elim (covers i d e) [
  | inl (st, e', h) ↦ inl (st, same ∙ e', h)
  | inr (inl q) ↦ absurd (ne (ap (λ (x : Chunk). x.hdr.msg_id) q ∙ (f.pieces i d e).id_eq))
  | inr (inr later) ↦ inr later
]

Covers-own :
    (id i : ℕ) (p : List ℕ) (cs rest : List Chunk) (map map' : Reassembler) (c : Chunk)
    → AreFragments id p cs
    → get_elem? cs i ≡ some c
    → HasSlot id map' i
    → ((j : ℕ) → HasSlot id map j → HasSlot id map' j)
    → Covers id cs map (c ∷ rest)
    → Covers id cs map' rest
Covers-own id i p cs rest map map' c f at slot kept covers j d e = elim (covers j d e) [
  | inl h ↦ inl (kept j h)
  | inr (inl q) ↦ inl (subst (HasSlot id map') (index q) slot)
  | inr (inr later) ↦ inr later
]
  where
    index : c ≡ d → i ≡ j
    index q =
        sym (f.pieces i c at).seq_eq ∙ ap (λ (x : Chunk). x.hdr.seq) q ∙ (f.pieces j d e).seq_eq

complete_own :
    (id i : ℕ) (p : List ℕ) (cs rest : List Chunk) (map : Reassembler) (c : Chunk)
    (r : Reassembler × Option (List ℕ)) (ds : List Delivery)
    → AreFragments id p cs
    → get_elem? cs i ≡ some c
    → Outcome id i cs map r
    → Covers id cs map (c ∷ rest)
    → (Tracks id cs r.0 → Covers id cs r.0 rest → Occurs (id, p) ds)
    → Occurs (id, p) (note c.hdr.msg_id r.1 ds)
complete_own id i p cs rest map c r ds f at (waits e t s k b) covers later =
    rw e (later t (Covers-own id i p cs rest map r.0 c f at s k covers))
complete_own id i p cs rest map c r ds f at (completes e l b) covers later =
    rw e (inl (ap₂ (λ x y. (x, y)) (f.pieces i c at).id_eq f.joined))

-- If every chunk that arrives for the message `id` is one of its fragments, in any order, repeated,
-- and between chunks of other messages, and every fragment is stored already or still arrives, then
-- the payload is delivered as `id`.
pub deliveries_complete :
    (id : ℕ) (p : List ℕ) (cs incoming : List Chunk) (map : Reassembler)
    → AreFragments id p cs
    → Tracks id cs map
    → All (IsGenuine id cs) incoming
    → Covers id cs map incoming
    → Occurs (id, p) (deliveries map incoming)
unfolding deliveries
deliveries_complete id p cs [] map f t g covers =
    absurd (not_all_stored id cs map f.some_chunk t covers)
deliveries_complete id p cs (c ∷ rest) map f t (inl ne, g) covers =
    let same = lookup-feed_ne id map c ne in
    Occurs-note id c.hdr.msg_id p (feed map c).1 (deliveries (feed map c).0 rest) (
      deliveries_complete id p cs rest (feed map c).0 f (Tracks-same id cs map _ same t) g
        (Covers-other id p cs rest map _ c f ne same covers))
deliveries_complete id p cs (c ∷ rest) map f t (inr (i, e), g) covers =
    complete_own id i p cs rest map c (feed map c) (deliveries (feed map c).0 rest) f e
      (feed-Outcome id i p cs map c f e t) covers
      (λ t' covers'. deliveries_complete id p cs rest (feed map c).0 f t' g covers')
