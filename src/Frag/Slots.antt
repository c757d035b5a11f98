-- ===== src/Frag/Slots.antt =====
-- The slots of one message's state: the counters of `Reassembler::State` and its two arrays.
use bitchat_clone.Base.{
  ℕ, zero, suc, ◌+◌, ◌<◌, ◌≤◌, ◌≡◌, refl, sym, ap, ◌∙◌, Bool, true, false, List, [], ◌∷◌, ◌++◌,
  some, arith, length, get_or, set, replicate, length-set, length-replicate, get_or-set_self,
  get_or-set_ne, append-nil, append_assoc, Bool-cases, inl, inr,
}
use native.Mathlib.Decide.{ℕ_discrete}
use bitchat_clone.Frag.Reassembler.{State, store_part, join}

abbrev pub count_true : List Bool → ℕ
count_true [] = 0
count_true (true ∷ bs) = suc (count_true bs)
count_true (false ∷ bs) = count_true bs

abbrev pub total_size : List (List ℕ) → ℕ
total_size [] = 0
total_size (p ∷ ps) = length p + total_size ps

count_true-le : (bs : List Bool) → count_true bs ≤ length bs
count_true-le [] = omega arith
count_true-le (true ∷ bs) = omega (arith, count_true-le bs)
count_true-le (false ∷ bs) = omega (arith, count_true-le bs)

pub count_true-full :
    (bs : List Bool) (i : ℕ) → length bs ≤ count_true bs → i < length bs → get_or bs i false ≡ true
count_true-full [] i h l = absurd (omega arith)
count_true-full (true ∷ bs) zero h l = refl
count_true-full (true ∷ bs) (suc i) h l = count_true-full bs i (omega arith) (omega arith)
count_true-full (false ∷ bs) i h l = absurd (omega (arith, count_true-le bs))

pub full-count_true :
    (bs : List Bool)
    → ((i : ℕ) → i < length bs → get_or bs i false ≡ true)
    → count_true bs ≡ length bs
full-count_true [] all = refl
full-count_true (true ∷ bs) all = ap suc (full-count_true bs (λ i l. all (suc i) (omega arith)))
full-count_true (false ∷ bs) all = cc (all 0 (omega arith))

count_true-set :
    (bs : List Bool) (i : ℕ)
    → i < length bs
    → get_or bs i false ≡ false
    → count_true (set bs i true) ≡ suc (count_true bs)
count_true-set [] i l h = absurd (omega arith)
count_true-set (true ∷ bs) zero l h = cc
count_true-set (false ∷ bs) zero l h = refl
count_true-set (true ∷ bs) (suc i) l h = ap suc (count_true-set bs i (omega arith) h)
count_true-set (false ∷ bs) (suc i) l h = count_true-set bs i (omega arith) h

total_size-set :
    (ps : List (List ℕ)) (i : ℕ) (p : List ℕ)
    → i < length ps
    → get_or ps i [] ≡ []
    → total_size (set ps i p) ≡ total_size ps + length p
total_size-set [] i p l h = absurd (omega arith)
total_size-set (q ∷ ps) zero p l h = omega (arith, ap length h)
total_size-set (q ∷ ps) (suc i) p l h = omega (arith, total_size-set ps i p (omega arith) h)

count_true-replicate : (n : ℕ) → count_true (replicate n false) ≡ 0
count_true-replicate zero = refl
count_true-replicate (suc n) = count_true-replicate n

total_size-replicate : (n : ℕ) → total_size (replicate n []) ≡ 0
total_size-replicate zero = refl
total_size-replicate (suc n) = omega (arith, total_size-replicate n)

pub get_or-replicate {ℓ} : {A : Type ℓ} (n i : ℕ) (a : A) → get_or (replicate n a) i a ≡ a
get_or-replicate zero i a = refl
get_or-replicate (suc n) zero a = refl
get_or-replicate (suc n) (suc i) a = get_or-replicate n i a

-- The arrays have `total` slots, the counters count them, and a slot not filled is empty.
pub record IsValid (st : State) : Type 0 where
  pub parts_size : length st.parts ≡ st.total
  pub have_size : length st.have ≡ st.total
  pub counted : st.received ≡ count_true st.have
  pub measured : st.bytes ≡ total_size st.parts
  pub blank : (i : ℕ) → get_or st.have i false ≡ false → get_or st.parts i [] ≡ []

abbrev pub fresh : ℕ → State
fresh n = record {
  total = n;
  received = 0;
  bytes = 0;
  parts = replicate n [];
  have = replicate n false;
}

pub fresh-IsValid : (n : ℕ) → IsValid (fresh n)
fresh-IsValid n = record {
  parts_size = length-replicate n [];
  have_size = length-replicate n false;
  counted = sym (count_true-replicate n);
  measured = sym (total_size-replicate n);
  blank = λ i e. get_or-replicate n i [];
}

-- Two cases for `store_part`.
pub store_part_old :
    (seq : ℕ) (p : List ℕ) (st : State) → get_or st.have seq false ≡ true → store_part seq p st ≡ st
unfolding store_part
store_part_old seq p st h = rw h

pub store_part_new :
    (seq : ℕ) (p : List ℕ) (st : State)
    → get_or st.have seq false ≡ false
    → store_part seq p st ≡ record {
      total = st.total;
      received = st.received + 1;
      bytes = st.bytes + length p;
      parts = set st.parts seq p;
      have = set st.have seq true;
    }
unfolding store_part
store_part_new seq p st h = rw h

pub store_part-IsValid :
    (seq : ℕ) (p : List ℕ) (st : State)
    → seq < st.total
    → IsValid st
    → IsValid (store_part seq p st)
store_part-IsValid seq p st l v = elim (Bool-cases (get_or st.have seq false)) [
  | inl old ↦ rw (store_part_old seq p st old) v
  | inr new ↦ rw (store_part_new seq p st new) (record {
    parts_size = length-set st.parts seq p ∙ v.parts_size;
    have_size = length-set st.have seq true ∙ v.have_size;
    counted = omega (arith, v.counted, count_true-set st.have seq (omega (arith, v.have_size)) new);
    measured = omega (
      arith,
      v.measured,
      total_size-set st.parts seq p (omega (arith, v.parts_size)) (v.blank seq new),
    );
    blank = λ i e. kept i e (ℕ_discrete seq i);
  })
]
  where
    kept :
        (i : ℕ)
        → get_or (set st.have seq true) i false ≡ false
        → Dec (seq ≡ i)
        → get_or (set st.parts seq p) i [] ≡ []
    kept i e (yes q) =
        absurd (cc (get_or-set_self st.have seq true false (omega (arith, v.have_size)), e, q))
    kept i e (no q) =
        get_or-set_ne st.parts seq i p [] q
        ∙ v.blank i (sym (get_or-set_ne st.have seq i true false q) ∙ e)

-- The parts from slot `i` on, end to end.
abbrev pub collect : ℕ → ℕ → List (List ℕ) → List ℕ
collect zero i ps = []
collect (suc r) i ps = get_or ps i [] ++ collect r (i + 1) ps

-- The joining loop succeeds if every slot that it visits is filled.
pub join-collect :
    (r i : ℕ) (st : State) (out : List ℕ)
    → ((j : ℕ) → i ≤ j → j < i + r → get_or st.have j false ≡ true)
    → join r i st out ≡ some (out ++ collect r i st.parts)
unfolding join
join-collect zero i st out all = ap some (sym (append-nil out))
join-collect (suc r) i st out all = rw (all i (omega arith) (omega arith)) (
    join-collect r (i + 1) st (out ++ get_or st.parts i [])
      (λ j lo hi. all j (omega arith) (omega arith))
    ∙ ap some (append_assoc out (get_or st.parts i []) (collect r (i + 1) st.parts)))
