-- ===== src/Chat/Entropy.antt =====
-- `get_na32` of src/app/chat_service.cpp: 32 bytes of /dev/urandom for `na32_`.
mod Runs
use bitchat_clone.Base.{
  ℕ, suc, zero, ◌+◌, ◌-◌, ◌<◌, ◌≤◌, ◌≡◌, refl, ap, sym, ◌∙◌, Bool, true, false, not, List, [], ◌∷◌,
  ◌++◌, if◌then◌else◌, ltb, length, take, drop, arith, append_assoc, append-nil, Bool-cases, inl,
  inr, take_all, take-append, length-append, length-take, lt→ltb, ge→ltb, ltb→lt, ltb→ge,
}
use mathlib.Core.Path.{ap₂}

-- What a call of `read` returns: some bytes, of which it stores at most as many as it was asked for,
-- or 0 or less. Such a call ends the loop.
pub data Read : Type 0 where
  took : ℕ → List ℕ → Read
  none_left : Read

-- `waiting`: a call that does not return.
pub data Drawn : Type 0 where
  drawn : Drawn
  failed : Drawn
  waiting : Drawn

abbrev pub na32_size : ℕ
na32_size = 32

-- The bytes that were stored, over those of the array.
abbrev pub laid_over : List ℕ → List ℕ → List ℕ
laid_over got old = got ++ drop (length got) old

-- The loop: the bytes stored so far, the array as it was, and the calls to come. The result has the
-- array.
unfoldable pub na_loop : List ℕ → List ℕ → List Read → List ℕ × Drawn
na_loop got old [] =
    if ltb (length got) na32_size then (laid_over got old, waiting) else (laid_over got old, drawn)
na_loop got old (none_left ∷ rest) =
    if ltb (length got) na32_size then (laid_over got old, failed) else (laid_over got old, drawn)
na_loop got old (took c cs ∷ rest) =
    let next = na_loop (got ++ take (na32_size - length got) (c ∷ cs)) old rest in
    if ltb (length got) na32_size then next else (laid_over got old, drawn)

-- The first argument says whether the device could be opened.
unfoldable pub get_na32 : Bool → List ℕ → List Read → List ℕ × Drawn
get_na32 opened old calls = if opened then na_loop [] old calls else (old, failed)

-- The bytes of the calls, up to the first that brings none.
abbrev pub brought : List Read → List ℕ
brought [] = []
brought (took c cs ∷ rest) = (c ∷ cs) ++ brought rest
brought (none_left ∷ rest) = []

abbrev pub is_drawn : Drawn → Bool
is_drawn drawn = true
is_drawn failed = false
is_drawn waiting = false

take_none : (ys : List ℕ) (n : ℕ) → n ≡ 0 → take n ys ≡ []
take_none ys n e = rw e refl

take_append : (n : ℕ) (xs ys : List ℕ) → take n (xs ++ ys) ≡ take n xs ++ take (n - length xs) ys
take_append zero xs ys = sym (take_none ys (0 - length xs) (omega arith))
take_append (suc n) [] ys = let all : suc n ≡ suc n - 0 = omega arith in ap (λ m. take m ys) all
take_append (suc n) (x ∷ xs) ys =
    let left : n - length xs ≡ suc n - suc (length xs) = omega arith in
    ap (λ t. x ∷ t) (take_append n xs ys ∙ ap (λ m. take n xs ++ take m ys) left)

-- The first 32 of the bytes, over the array, and whether there are so many.
abbrev Draws : List ℕ → List ℕ → List ℕ × Drawn → Type 0
Draws bs old r = (r.0 ≡ laid_over (take 32 bs) old) × (is_drawn r.1 ≡ not (ltb (length bs) 32))

ends :
    (got old : List ℕ) (how : Drawn)
    → is_drawn how ≡ false
    → length got ≤ 32
    → Draws
        (got ++ [])
        old
        (if ltb (length got) 32 then (laid_over got old, how) else (laid_over got old, drawn))
ends got old how e h = rw (append-nil got) (
    rw (take_all 32 got h) (elim (Bool-cases (ltb (length got) 32)) [
      | inl short ↦ rw short (refl, e)
      | inr enough ↦ rw enough (refl, refl)
    ]))

-- Storing as much of a call's bytes as there is room for.
room_for :
    (got bs rest : List ℕ)
    → length got < 32
    → (take 32 ((got ++ take (32 - length got) bs) ++ rest) ≡ take 32 (got ++ (bs ++ rest)))
      × (ltb (length ((got ++ take (32 - length got) bs) ++ rest)) 32
          ≡ ltb (length (got ++ (bs ++ rest))) 32)
room_for got bs rest h = elim (Bool-cases (ltb (32 - length got) (length bs))) [
  | inr fits ↦
      let all : (got ++ take (32 - length got) bs) ++ rest ≡ got ++ (bs ++ rest) =
        ap (λ t. (got ++ t) ++ rest) (take_all (32 - length got) bs (ltb→ge _ _ fits))
        ∙ append_assoc got bs rest in
      (ap (take 32) all, ap (λ t. ltb (length t) 32) all)
  | inl over ↦ (
    take-append 32 (got ++ take (32 - length got) bs) rest (full over) ∙ sym (cut over),
    ge→ltb _ _ (omega (arith, full over, length-append (got ++ take (32 - length got) bs) rest))
        ∙ sym (
            ge→ltb _ _ (
              omega
                (arith, ltb→lt _ _ over, length-append got (bs ++ rest), length-append bs rest))),
  )
]
  where
    full : ltb (32 - length got) (length bs) ≡ true → length (got ++ take (32 - length got) bs) ≡ 32
    full over = omega (
      arith,
      ltb→lt _ _ over,
      length-append got (take (32 - length got) bs),
      length-take (32 - length got) bs,
    )

    cut :
        ltb (32 - length got) (length bs) ≡ true
        → take 32 (got ++ (bs ++ rest)) ≡ got ++ take (32 - length got) bs
    cut over =
        take_append 32 got (bs ++ rest)
        ∙ ap₂ (λ a b. a ++ b) (take_all 32 got (omega (arith, h)))
            (take_append (32 - length got) bs rest
              ∙ ap (λ t. take (32 - length got) bs ++ t)
                  (take_none rest _ (omega (arith, ltb→lt _ _ over)))
              ∙ append-nil (take (32 - length got) bs))

room_left : (got bs : List ℕ) → length got < 32 → length (got ++ take (32 - length got) bs) ≤ 32
room_left got bs h =
    omega (arith, length-append got (take (32 - length got) bs), length-take (32 - length got) bs)

na_loop-Draws :
    (got old : List ℕ) (calls : List Read)
    → length got ≤ 32
    → Draws (got ++ brought calls) old (na_loop got old calls)
unfolding na_loop
na_loop-Draws got old [] h = ends got old waiting refl h
na_loop-Draws got old (none_left ∷ rest) h = ends got old failed refl h
na_loop-Draws got old (took c cs ∷ rest) h = elim (Bool-cases (ltb (length got) 32)) [
  | inl more ↦
      let (bytes, how) =
        na_loop-Draws (got ++ take (32 - length got) (c ∷ cs)) old rest
          (room_left got (c ∷ cs) (ltb→lt _ _ more)) in
      let (same, count) = room_for got (c ∷ cs) (brought rest) (ltb→lt _ _ more) in
      rw more (bytes ∙ ap (λ t. laid_over t old) same, how ∙ ap not count)
  | inr enough ↦
      let size : length got ≡ 32 = omega (arith, h, ltb→ge _ _ enough) in
      rw enough (
        ap (λ t. laid_over t old) (sym (take-append 32 got (brought (took c cs ∷ rest)) size)),
        ap not (
            sym (ge→ltb _ _ (omega (arith, size, length-append got (brought (took c cs ∷ rest)))))),
      )
]

-- However the system splits what it gives, once the device is open: the array gets the first 32 bytes
-- that the calls bring, or as many as they bring, and keeps the others; and the call succeeds exactly
-- if they bring 32.
pub get_na32_lem :
    (old : List ℕ) (calls : List Read)
    → ((get_na32 true old calls).0
        ≡ take 32 (brought calls) ++ drop (length (take 32 (brought calls))) old)
      × (is_drawn (get_na32 true old calls).1 ≡ not (ltb (length (brought calls)) 32))
unfolding get_na32
get_na32_lem old calls = na_loop-Draws [] old calls (omega arith)
