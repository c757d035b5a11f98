-- ===== src/Frag/Split.antt =====
-- What `make_chunks` cuts a payload into.
use native.Mathlib.Nat.{div-add-mod, mod-lt}
use bitchat_clone.Base.{
  ℕ, zero, suc, ◌+◌, ◌-◌, ◌*◌, ◌<◌, ◌≤◌, ◌≡◌, refl, sym, ap, subst, ◌∙◌, List, [], ◌∷◌, ◌++◌, some,
  arith, length, get_elem?, take, drop, min, length-take, length-drop, ge→ltb, some_inj, ◌↔◌, ◌⊎◌,
  ◌≢◌, take-append-drop, drop-drop, drop_all,
}
use mathlib.Core.Path.{ap₂}
use bitchat_clone.Frag.{Chunk}
use bitchat_clone.Frag.Chunks.{chunk_at, chunk_loop, empty_chunk, num_chunks, make_chunks}

-- The payloads of the chunks, end to end.
abbrev pub payloads : List Chunk → List ℕ
payloads [] = []
payloads (c ∷ cs) = c.payload ++ payloads cs

-- The chunk stands at its place in a message of `total` chunks.
pub record IsPiece (msg_id total i : ℕ) (c : Chunk) : Type 0 where
  pub id_eq : c.hdr.msg_id ≡ msg_id
  pub seq_eq : c.hdr.seq ≡ i
  pub total_eq : c.hdr.total ≡ total
  pub len_eq : c.hdr.len ≡ length c.payload
  pub ver_eq : c.hdr.ver ≡ 1
  pub flags_le : c.hdr.flags ≤ 1
  pub place : i < total
  pub short : c.hdr.len ≤ 100

-- The chunks are numbered from 0, agree on the message and its size, and join to the payload.
pub record AreFragments (msg_id : ℕ) (payload : List ℕ) (cs : List Chunk) : Type 0 where
  pub some_chunk : 0 < length cs
  pub few : length cs < 65536
  pub joined : payloads cs ≡ payload
  pub pieces : (i : ℕ) (c : Chunk) → get_elem? cs i ≡ some c → IsPiece msg_id (length cs) i c

num_chunks_enough : (size mtu : ℕ) → 0 < mtu → size ≤ num_chunks size mtu * mtu
num_chunks_enough size mtu h =
    grind (arith, div-add-mod (size + mtu - 1) mtu, mod-lt (size + mtu - 1) h)

num_chunks_pos : (size mtu : ℕ) → 0 < mtu → 0 < size → 0 < num_chunks size mtu
num_chunks_pos size mtu h p = grind (arith, num_chunks_enough size mtu h)

take_eq : (m n : ℕ) (xs : List ℕ) → m ≡ n → take m xs ≡ take n xs
take_eq m n xs e = ap (λ k. take k xs) e

take-min : (m : ℕ) (xs : List ℕ) → take (min m (length xs)) xs ≡ take m xs
take-min zero xs = take_eq (min 0 (length xs)) 0 xs (omega arith)
take-min (suc m) [] = take_eq (min (suc m) 0) 0 [] (omega arith)
take-min (suc m) (x ∷ xs) =
    take_eq (min (suc m) (suc (length xs))) (suc (min m (length xs))) (x ∷ xs) (omega arith)
    ∙ ap (◌∷◌ x) (take-min m xs)

length-chunk_loop :
    (r id : ℕ) (p : List ℕ) (mtu num i : ℕ) → length (chunk_loop r id p mtu num i) ≡ r
unfolding chunk_loop
length-chunk_loop zero id p mtu num i = refl
length-chunk_loop (suc r) id p mtu num i = ap suc (length-chunk_loop r id p mtu num (i + 1))

chunk_at-take :
    (id : ℕ) (p : List ℕ) (mtu num i : ℕ)
    → (chunk_at id p mtu num i).payload ≡ take mtu (drop (i * mtu) p)
unfolding chunk_at
chunk_at-take id p mtu num i =
    ap (λ k. take (min mtu k) (drop (i * mtu) p)) (sym (length-drop (i * mtu) p))
    ∙ take-min mtu (drop (i * mtu) p)

payloads-chunk_loop :
    (r id : ℕ) (p : List ℕ) (mtu num i : ℕ)
    → length p ≤ (i + r) * mtu
    → payloads (chunk_loop r id p mtu num i) ≡ drop (i * mtu) p
unfolding chunk_loop
payloads-chunk_loop zero id p mtu num i h = sym (drop_all (i * mtu) p (omega arith))
payloads-chunk_loop (suc r) id p mtu num i h =
    ap₂ ◌++◌ (chunk_at-take id p mtu num i)
      (payloads-chunk_loop r id p mtu num (i + 1) (grind arith) ∙ next)
    ∙ take-append-drop mtu (drop (i * mtu) p)
  where
    next : drop ((i + 1) * mtu) p ≡ drop mtu (drop (i * mtu) p)
    next = ap (λ k. drop k p) (omega arith) ∙ sym (drop-drop mtu (i * mtu) p)

at_eq :
    (id : ℕ) (p : List ℕ) (mtu num i j : ℕ)
    → i ≡ j
    → chunk_at id p mtu num i ≡ chunk_at id p mtu num j
at_eq id p mtu num i j e = ap (chunk_at id p mtu num) e

get_elem?-chunk_loop :
    (r id : ℕ) (p : List ℕ) (mtu num i k : ℕ) (c : Chunk)
    → get_elem? (chunk_loop r id p mtu num i) k ≡ some c
    → (k < r) × (c ≡ chunk_at id p mtu num (i + k))
unfolding chunk_loop
get_elem?-chunk_loop zero id p mtu num i k c e = cc
get_elem?-chunk_loop (suc r) id p mtu num i zero c e =
    (omega arith, sym (some_inj e) ∙ at_eq id p mtu num i (i + 0) (omega arith))
get_elem?-chunk_loop (suc r) id p mtu num i (suc k) c e =
    let (l, q) = get_elem?-chunk_loop r id p mtu num (i + 1) k c e in
    (omega arith, q ∙ at_eq id p mtu num (i + 1 + k) (i + suc k) (omega arith))

chunk_at-IsPiece :
    (id : ℕ) (p : List ℕ) (mtu num i : ℕ)
    → mtu ≤ 100
    → num < 65536
    → i < num
    → IsPiece id num i (chunk_at id p mtu num i)
unfolding chunk_at
chunk_at-IsPiece id p mtu num i h n l = record {
  id_eq = refl;
  seq_eq = omega arith;
  total_eq = omega arith;
  len_eq = omega (
    arith,
    length-take (min mtu (length p - i * mtu)) (drop (i * mtu) p),
    length-drop (i * mtu) p,
  );
  ver_eq = refl;
  flags_le = ground arith;
  place = l;
  short = omega arith;
}

chunk_loop-AreFragments :
    (id : ℕ) (p : List ℕ) (mtu num : ℕ)
    → 0 < num
    → num < 65536
    → mtu ≤ 100
    → length p ≤ num * mtu
    → AreFragments id p (chunk_loop num id p mtu num 0)
chunk_loop-AreFragments id p mtu num pos few h enough = record {
  some_chunk = rw (length-chunk_loop num id p mtu num 0) pos;
  few = rw (length-chunk_loop num id p mtu num 0) few;
  joined =
      payloads-chunk_loop num id p mtu num 0 (omega (arith, enough)) ∙ ap (λ k. drop k p) zero_mul;
  pieces = λ i c e.
      let (l, q) = get_elem?-chunk_loop num id p mtu num 0 i c e in
      rw (length-chunk_loop num id p mtu num 0, q ∙ at_eq id p mtu num (0 + i) i (omega arith))
        (chunk_at-IsPiece id p mtu num i h few l);
}
  where
    zero_mul : 0 * mtu ≡ 0
    zero_mul = omega arith

empty_chunk-AreFragments : (id : ℕ) → AreFragments id [] (empty_chunk id ∷ [])
unfolding empty_chunk
empty_chunk-AreFragments id = record {
  some_chunk = omega arith;
  few = omega arith;
  joined = refl;
  pieces = only;
}
  where
    first : IsPiece id 1 0 (empty_chunk id)
    first = record {
      id_eq = refl;
      seq_eq = refl;
      total_eq = refl;
      len_eq = refl;
      ver_eq = refl;
      flags_le = omega arith;
      place = omega arith;
      short = omega arith;
    }

    only : (i : ℕ) (c : Chunk) → get_elem? (empty_chunk id ∷ []) i ≡ some c → IsPiece id 1 i c
    only zero c e = subst (IsPiece id 1 0) (some_inj e) first
    only (suc i) c e = cc

-- What `make_chunks` accepts: 1 to 100 bytes for a chunk, and at most 65535 chunks.
abbrev pub Fits : List ℕ → ℕ → Type 0
Fits p mtu = (1 ≤ mtu) × (mtu ≤ 100) × (num_chunks (length p) mtu ≤ 65535)

-- A payload that fits is cut into fragments: numbered from 0 without a gap, each with the message's
-- id, the number of fragments and its own size in the header, at most 100 bytes long, and together
-- the payload again.
pub make_chunks-AreFragments :
    (id : ℕ) (p : List ℕ) (mtu : ℕ) → Fits p mtu → AreFragments id p (make_chunks id p mtu)
unfolding make_chunks
make_chunks-AreFragments id [] mtu (lo, hi, few) =
    rw (ge→ltb mtu 1 lo, ge→ltb 100 mtu hi) (empty_chunk-AreFragments id)
make_chunks-AreFragments id (x ∷ xs) mtu (lo, hi, few) =
    rw (ge→ltb mtu 1 lo, ge→ltb 100 mtu hi, ge→ltb 65535 (num_chunks (suc (length xs)) mtu) few)
      (chunk_loop-AreFragments id (x ∷ xs) mtu _
        (num_chunks_pos (suc (length xs)) mtu lo (omega arith)) (omega arith) hi
        (num_chunks_enough (suc (length xs)) mtu lo))

-- `make_chunks` fails, with no chunk, on exactly the payloads that do not fit; on an empty payload
-- the number of chunks plays no part.
pub make_chunks-nil :
    (id : ℕ) (p : List ℕ) (mtu : ℕ)
    → (make_chunks id p mtu ≡ [])
      ↔ ((mtu < 1) ⊎ (100 < mtu) ⊎ ((p ≢ []) × (65535 < num_chunks (length p) mtu)))
unfolding make_chunks
make_chunks-nil id [] mtu = (λ e. ground arith, λ h. ground arith)
make_chunks-nil id (x ∷ xs) mtu = (
  λ e. ground (
    arith,
    num_chunks_pos (suc (length xs)) mtu,
    length-chunk_loop (num_chunks (suc (length xs)) mtu) id (x ∷ xs) mtu
        (num_chunks (suc (length xs)) mtu) 0,
  ),
  λ h. ground arith,
)

chunk_at_short :
    (id : ℕ) (p : List ℕ) (mtu num i : ℕ) → length (chunk_at id p mtu num i).payload ≤ mtu
unfolding chunk_at
chunk_at_short id p mtu num i =
    omega (arith, length-take (min mtu (length p - i * mtu)) (drop (i * mtu) p))

empty_chunk_short :
    (id i : ℕ) (c : Chunk) → get_elem? (empty_chunk id ∷ []) i ≡ some c → length c.payload ≡ 0
unfolding empty_chunk
empty_chunk_short id zero c e = ap (λ (w : Chunk). length w.payload) (sym (some_inj e))
empty_chunk_short id (suc i) c e = cc

-- The payload of a fragment of a payload that fits is at most as long as the size that was asked for.
pub make_chunks_short :
    (id : ℕ) (p : List ℕ) (mtu i : ℕ) (c : Chunk)
    → Fits p mtu
    → get_elem? (make_chunks id p mtu) i ≡ some c
    → length c.payload ≤ mtu
unfolding make_chunks
make_chunks_short id [] mtu i c (lo, hi, few) e =
    omega (arith, empty_chunk_short id i c (rw (ge→ltb mtu 1 lo, ge→ltb 100 mtu hi) at e))
make_chunks_short id (x ∷ xs) mtu i c (lo, hi, few) e =
    let num = num_chunks (suc (length xs)) mtu in
    let (l, q) =
      get_elem?-chunk_loop num id (x ∷ xs) mtu num 0 i c
        (rw (ge→ltb mtu 1 lo, ge→ltb 100 mtu hi, ge→ltb 65535 num few) at e) in
    rw q (chunk_at_short id (x ∷ xs) mtu num (0 + i))
