-- ===== src/Frag/Holds.antt =====
-- What the state of a message holds of its fragments, through the steps of `feed`.
use bitchat_clone.Base.{
  ℕ, suc, ◌+◌, ◌<◌, ◌≤◌, ◌≡◌, ◌⊎◌, inl, inr, refl, sym, ap, ◌∙◌, true, false, List, [], ◌∷◌, ◌++◌,
  none, some, arith, length, get_elem?, get_or, set, lookup, Bool-cases, get_or-set_self,
  get_or-set_ne, Option-cases, some_inj, get_elem?_lt,
}
use native.Mathlib.Decide.{ℕ_discrete}
use mathlib.Core.Path.{ap₂}
use bitchat_clone.Frag.{Chunk}
use bitchat_clone.Frag.Reassembler.{State, Reassembler, or_new, reset_for, store_part, join}
use bitchat_clone.Frag.Slots.{
  IsValid, fresh, fresh-IsValid, store_part_old, store_part_new, store_part-IsValid,
  count_true-full, collect, join-collect, get_or-replicate,
}
use bitchat_clone.Frag.Split.{payloads}

-- What the state of a message holds of its fragments `cs`: a filled slot has the right payload.
pub record Holds (cs : List Chunk) (st : State) : Type 0 where
  pub total_eq : st.total ≡ length cs
  pub valid : IsValid st
  pub stored :
      (i : ℕ) (c : Chunk)
      → get_elem? cs i ≡ some c
      → get_or st.have i false ≡ true
      → get_or st.parts i [] ≡ c.payload

-- The map holds either nothing or a part of the message.
abbrev pub Tracks : ℕ → List Chunk → Reassembler → Type 0
Tracks id cs map = (st : State) → lookup id map ≡ some st → Holds cs st × (st.received < st.total)

abbrev pub HasSlot : ℕ → Reassembler → ℕ → Type 0
HasSlot id map i = (st : State) × (lookup id map ≡ some st) × (get_or st.have i false ≡ true)

fresh-Holds : (cs : List Chunk) → Holds cs (fresh (length cs))
fresh-Holds cs = record {
  total_eq = refl;
  valid = fresh-IsValid (length cs);
  stored = λ i c e h. absurd (cc (get_or-replicate (length cs) i false, h));
}

reset_new : (n : ℕ) → reset_for n (or_new none) ≡ fresh n
unfolding reset_for
reset_new n = refl

reset_same : (n : ℕ) (st : State) → st.total ≡ n → 0 < n → reset_for n st ≡ st
unfolding reset_for
reset_same n st e h = ground arith

pub reset-Holds :
    (id : ℕ) (cs : List Chunk) (map : Reassembler)
    → 0 < length cs
    → Tracks id cs map
    → Holds cs (reset_for (length cs) (or_new (lookup id map)))
reset-Holds id cs map pos t = elim (Option-cases (lookup id map)) [
  | inl e ↦ rw (e, reset_new (length cs)) (fresh-Holds cs)
  | inr (st, e) ↦ rw (e, reset_same (length cs) st (t st e).0.total_eq pos) (t st e).0
]

pub reset_slot :
    (id : ℕ) (cs : List Chunk) (map : Reassembler) (i : ℕ)
    → 0 < length cs
    → Tracks id cs map
    → HasSlot id map i
    → get_or (reset_for (length cs) (or_new (lookup id map))).have i false ≡ true
reset_slot id cs map i pos t (st, e, h) =
    rw (e, reset_same (length cs) st (t st e).0.total_eq pos) h

pub store-Holds :
    (id : ℕ) (cs : List Chunk) (st : State) (i : ℕ) (c : Chunk)
    → get_elem? cs i ≡ some c
    → i < length cs
    → Holds cs st
    → Holds cs (store_part i c.payload st)
store-Holds id cs st i c e l h = elim (Bool-cases (get_or st.have i false)) [
  | inl old ↦ rw (store_part_old i c.payload st old) h
  | inr new ↦ record {
    total_eq = rw (store_part_new i c.payload st new) h.total_eq;
    valid = store_part-IsValid i c.payload st (omega (arith, h.total_eq)) h.valid;
    stored =
        rw (store_part_new i c.payload st new)
          (λ j d e' filled. slot j d e' filled (ℕ_discrete i j));
  }
]
  where
    slot :
        (j : ℕ) (d : Chunk)
        → get_elem? cs j ≡ some d
        → get_or (set st.have i true) j false ≡ true
        → Dec (i ≡ j)
        → get_or (set st.parts i c.payload) j [] ≡ d.payload
    slot j d e' filled (yes q) =
        ap (λ k. get_or (set st.parts i c.payload) k []) (sym q)
        ∙ get_or-set_self st.parts i c.payload [] (omega (arith, h.valid.parts_size, h.total_eq))
        ∙ ap (λ (x : Chunk). x.payload) (some_inj (sym e ∙ ap (get_elem? cs) q ∙ e'))
    slot j d e' filled (no q) =
        get_or-set_ne st.parts i j c.payload [] q
        ∙ h.stored j d e' (sym (get_or-set_ne st.have i j true false q) ∙ filled)

pub store_slot :
    (st : State) (i : ℕ) (p : List ℕ)
    → i < st.total
    → IsValid st
    → get_or (store_part i p st).have i false ≡ true
store_slot st i p l v = elim (Bool-cases (get_or st.have i false)) [
  | inl old ↦ rw (store_part_old i p st old) old
  | inr new ↦
      rw (store_part_new i p st new)
        (get_or-set_self st.have i true false (omega (arith, v.have_size)))
]

pub store_slot_kept :
    (st : State) (i j : ℕ) (p : List ℕ)
    → get_or st.have j false ≡ true
    → get_or (store_part i p st).have j false ≡ true
store_slot_kept st i j p h = elim (Bool-cases (get_or st.have i false)) [
  | inl old ↦ rw (store_part_old i p st old) h
  | inr new ↦ rw (store_part_new i p st new) (
      get_or-set_ne st.have i j true false (λ e. absurd (cc (ap (λ k. get_or st.have k false) e)))
      ∙ h)
]

collect-payloads :
    (cs : List Chunk) (i : ℕ) (ps : List (List ℕ))
    → ((j : ℕ) (c : Chunk) → get_elem? cs j ≡ some c → get_or ps (i + j) [] ≡ c.payload)
    → collect (length cs) i ps ≡ payloads cs
collect-payloads [] i ps h = refl
collect-payloads (c ∷ cs) i ps h = ap₂ ◌++◌ (slot_eq i (i + 0) (omega arith) ∙ h 0 c refl) (
    collect-payloads cs (i + 1) ps
      (λ j d e. slot_eq (i + 1 + j) (i + suc j) (omega arith) ∙ h (suc j) d e))
  where
    slot_eq : (j k : ℕ) → j ≡ k → get_or ps j [] ≡ get_or ps k []
    slot_eq j k e = ap (λ n. get_or ps n []) e

-- A state with nothing missing joins to the payload.
pub join-Holds :
    (cs : List Chunk) (st : State)
    → Holds cs st
    → st.total ≤ st.received
    → join st.total 0 st [] ≡ some (payloads cs)
join-Holds cs st h full =
    join-collect st.total 0 st [] (λ j lo hi. filled j (omega (arith, h.total_eq)))
    ∙ ap some (
        rw h.total_eq (
          collect-payloads cs 0 st.parts (λ j c e.
            slot_eq (0 + j) j (omega arith) ∙ h.stored j c e (filled j (get_elem?_lt cs j e)))))
  where
    filled : (j : ℕ) → j < length cs → get_or st.have j false ≡ true
    filled j l =
        count_true-full st.have j (omega (arith, h.valid.have_size, h.valid.counted))
          (omega (arith, h.valid.have_size, h.total_eq))

    slot_eq : (j k : ℕ) → j ≡ k → get_or st.parts j [] ≡ get_or st.parts k []
    slot_eq j k e = ap (λ n. get_or st.parts n []) e

pub reset_back :
    (id : ℕ) (cs : List Chunk) (map : Reassembler) (j : ℕ)
    → 0 < length cs
    → Tracks id cs map
    → get_or (reset_for (length cs) (or_new (lookup id map))).have j false ≡ true
    → HasSlot id map j
reset_back id cs map j pos t h = elim (Option-cases (lookup id map)) [
  | inl e ↦ absurd (cc (rw (e, reset_new (length cs)) at h, get_or-replicate (length cs) j false))
  | inr (st, e) ↦ (st, e, rw (e, reset_same (length cs) st (t st e).0.total_eq pos) at h)
]

pub store_slot_back :
    (st : State) (i j : ℕ) (p : List ℕ)
    → get_or (store_part i p st).have j false ≡ true
    → (j ≡ i) ⊎ (get_or st.have j false ≡ true)
store_slot_back st i j p h = elim (ℕ_discrete i j) [
  | yes same ↦ inl (sym same)
  | no other ↦ elim (Bool-cases (get_or st.have i false)) [
    | inl old ↦ inr (rw (store_part_old i p st old) at h)
    | inr new ↦
        inr (sym (get_or-set_ne st.have i j true false other) ∙ rw (store_part_new i p st new) at h)
  ]
]
