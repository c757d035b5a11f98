-- ===== src/Ctrl/RoundTrip.antt =====
-- `parse_hello` on what `encode_hello` writes, and on any other input.
use bitchat_clone.Base.{
  ℕ, zero, suc, ◌+◌, ◌*◌, ◌<◌, ◌≤◌, ◌≡◌, ◌≢◌, refl, ap, ◌∙◌, List, [], ◌∷◌, ◌++◌, Option, none,
  some, arith, length, length-append, length-drop, take, drop, ltb, if◌then◌else◌, IsU32, Bool,
  true, false, inl, inr, Bool-cases, sym, ge→ltb, drop-append, replicate, take-append, take_all,
  append-nil, length-take, ltb→lt, ltb→ge, lt→ltb,
}
use mathlib.Core.Path.{ap₂}
use bitchat_clone.Ctrl.{
  Hello, new_hello, or_malformed, Parsed, accepted, malformed, stuck, take_tlv, tlv_loop,
  parse_hello, encode_hello, le32, from_le32, user_tlv, na32_tlv,
}

-- With more rounds than bytes the loop does not run out of fuel.
tlv_loop-ne-stuck :
    (fuel : ℕ) (rest : List ℕ) (h : Hello) → length rest < fuel → tlv_loop fuel rest h ≢ stuck
unfolding tlv_loop
tlv_loop-ne-stuck zero rest h l = absurd (omega arith)
tlv_loop-ne-stuck (suc fuel) [] h l = λ e. cc
tlv_loop-ne-stuck (suc fuel) (a ∷ []) h l = λ e. cc
tlv_loop-ne-stuck (suc fuel) (a ∷ b ∷ []) h l = λ e. cc
tlv_loop-ne-stuck (suc fuel) (t ∷ hi ∷ lo ∷ v) h l =
    elim (Bool-cases (ltb (length v) (hi * 256 + lo))) [
      | inl short ↦ rw short (λ e. cc)
      | inr long ↦ rw long (
          switch (take_tlv t (hi * 256 + lo) v h) (λ h'.
            tlv_loop-ne-stuck fuel (drop (hi * 256 + lo) v) h'
              (omega (arith, length-drop (hi * 256 + lo) v))))
    ]
  where
    switch :
        (o : Option Hello)
        → ((h' : Hello) → tlv_loop fuel (drop (hi * 256 + lo) v) h' ≢ stuck)
        → or_malformed h o (tlv_loop fuel (drop (hi * 256 + lo) v)) ≢ stuck
    switch none k = λ e. cc
    switch (some h') k = k h'

-- On any bytes the parser returns: it accepts them or finds them malformed.
pub parse_hello-ne-stuck : (buf : List ℕ) (h : Hello) → parse_hello buf h ≢ stuck
unfolding parse_hello
parse_hello-ne-stuck buf h =
    ground (arith, tlv_loop-ne-stuck (suc (length buf)) (drop 2 buf) h, length-drop 2 buf)

switch_more :
    (short : Bool) (h : Hello) (o : Option Hello) (k k' : Hello → Parsed) (r : Parsed)
    → ((h' : Hello) → k h' ≡ r → k' h' ≡ r)
    → (if short then malformed h else or_malformed h o k) ≡ r
    → (if short then malformed h else or_malformed h o k') ≡ r
switch_more true h o k k' r f e = e
switch_more false h none k k' r f e = e
switch_more false h (some h') k k' r f e = f h' e

-- Fuel left over changes nothing.
pub tlv_loop_more :
    (f g : ℕ) (rest : List ℕ) (h : Hello) (r : Parsed)
    → f ≤ g
    → tlv_loop f rest h ≡ r
    → r ≢ stuck
    → tlv_loop g rest h ≡ r
unfolding tlv_loop
tlv_loop_more zero g rest h r l e n = absurd (n (sym e))
tlv_loop_more (suc f) zero rest h r l e n = absurd (omega arith)
tlv_loop_more (suc f) (suc g) [] h r l e n = e
tlv_loop_more (suc f) (suc g) (a ∷ []) h r l e n = e
tlv_loop_more (suc f) (suc g) (a ∷ b ∷ []) h r l e n = e
tlv_loop_more (suc f) (suc g) (t ∷ hi ∷ lo ∷ v) h r l e n =
    switch_more (ltb (length v) (hi * 256 + lo)) h (take_tlv t (hi * 256 + lo) v h) _ _ r
      (λ h' e'. tlv_loop_more f g (drop (hi * 256 + lo) v) h' r (omega arith) e' n) e

-- One entry that the switch takes.
tlv_loop_entry :
    (f t hi lo : ℕ) (v rest : List ℕ) (h h' : Hello)
    → length v ≡ hi * 256 + lo
    → take_tlv t (hi * 256 + lo) (v ++ rest) h ≡ some h'
    → tlv_loop (suc f) (t ∷ hi ∷ lo ∷ (v ++ rest)) h ≡ tlv_loop f rest h'
unfolding tlv_loop
tlv_loop_entry f t hi lo v rest h h' l e =
    rw (e, ge→ltb (length (v ++ rest)) (hi * 256 + lo) (omega (arith, length-append v rest)))
      (rw (drop-append (hi * 256 + lo) v rest l))

pub parse_hello_lem :
    (body : List ℕ) (h : Hello)
    → parse_hello (0x01 ∷ 0x01 ∷ body) h ≡ tlv_loop (suc (suc (suc (length body)))) body h
unfolding parse_hello
parse_hello_lem body h = ground arith

-- What a peer learns from the three entries.
abbrev pub na32_of : Option (List ℕ) → List ℕ
na32_of none = replicate 32 0
na32_of (some na) = na

abbrev pub is_some {ℓ} : {A : Type ℓ} → Option A → Bool
is_some none = false
is_some (some a) = true

abbrev pub hello_of : List ℕ → ℕ → Option (List ℕ) → Hello
hello_of user caps na = record {
  user_id = take 64 user;
  has_caps = true;
  caps = caps;
  has_na32 = is_some na;
  na32 = na32_of na;
}

-- The pointer, where there is one, points at 32 bytes.
abbrev pub IsNa32 : Option (List ℕ) → Type 0
IsNa32 none = Unit {0}
IsNa32 (some na) = length na ≡ 32

na32_switch :
    (na : List ℕ) (h : Hello)
    → length na ≡ 32
    → take_tlv 0x12 32 (na ++ []) h ≡ some (record h { has_na32 = true; na32 = na })
unfolding take_tlv
na32_switch na h w = λ i. some (record h { has_na32 = true; na32 = take-append 32 na [] w i })

na32_entry :
    (f : ℕ) (na : Option (List ℕ)) (h : Hello)
    → IsNa32 na
    → h.has_na32 ≡ false
    → h.na32 ≡ replicate 32 0
    → tlv_loop (suc (suc f)) (na32_tlv na) h
      ≡ accepted (record h { has_na32 = is_some na; na32 = na32_of na })
na32_entry f none h w e z =
    unfold tlv_loop in λ i. accepted (record h { has_na32 = e i; na32 = z i })
na32_entry f (some na) h w e z =
    ap (λ k. tlv_loop (suc (suc f)) (0x12 ∷ 0 ∷ 32 ∷ k) h)
      (take_all 32 na (omega arith) ∙ sym (append-nil na))
    ∙ tlv_loop_entry (suc f) 0x12 0 32 na [] h (record h { has_na32 = true; na32 = na }) w
        (na32_switch na h w)
    ∙ unfold tlv_loop in refl

caps_switch :
    (caps : ℕ) (rest : List ℕ) (h : Hello)
    → IsU32 caps
    → take_tlv 0x02 4 (le32 caps ++ rest) h ≡ some (record h { has_caps = true; caps = caps })
unfolding take_tlv
caps_switch caps rest h w = λ i. some (record h { has_caps = true; caps = word i })
  where
    word : from_le32 (le32 caps ++ rest) ≡ caps
    word = omega arith

caps_entry :
    (f caps : ℕ) (rest : List ℕ) (h : Hello)
    → IsU32 caps
    → tlv_loop (suc f) (0x02 ∷ 0x00 ∷ 0x04 ∷ (le32 caps ++ rest)) h
      ≡ tlv_loop f rest (record h { has_caps = true; caps = caps })
caps_entry f caps rest h w =
    tlv_loop_entry f 2 0 4 (le32 caps) rest h (record h { has_caps = true; caps = caps }) refl
      (caps_switch caps rest h w)

user_switch :
    (len : ℕ) (t rest : List ℕ) (h : Hello)
    → length t ≡ len
    → 0 < len
    → len ≤ 64
    → take_tlv 0x01 len (t ++ rest) h ≡ some (record h { user_id = t })
unfolding take_tlv
user_switch len t rest h e lo hi = ground (arith, take-append len t rest)

user_tlv-cons :
    (u : ℕ) (us : List ℕ)
    → user_tlv (u ∷ us) ≡ 0x01 ∷ 0x00 ∷ length (take 64 (u ∷ us)) ∷ take 64 (u ∷ us)
user_tlv-cons u us = elim (Bool-cases (ltb 64 (suc (length us)))) [
  | inl long ↦ rw long (
      ap (λ k. 0x01 ∷ 0x00 ∷ k ∷ take 64 (u ∷ us))
        (omega (arith, length-take 64 (u ∷ us), ltb→lt 64 (suc (length us)) long)))
  | inr short ↦
      rw (short, lt→ltb 0 (suc (length us)) (omega arith))
        (ap₂ (λ k t. 0x01 ∷ 0x00 ∷ k ∷ t)
          (omega (arith, length-take 64 (u ∷ us), ltb→ge 64 (suc (length us)) short))
          (take_all (suc (length us)) (u ∷ us) (omega arith)
            ∙ sym (take_all 64 (u ∷ us) (ltb→ge 64 (suc (length us)) short))))
]

user_entry :
    (f : ℕ) (user rest : List ℕ) (r : Parsed)
    → tlv_loop f rest (record new_hello { user_id = take 64 user }) ≡ r
    → r ≢ stuck
    → tlv_loop (suc f) (user_tlv user ++ rest) new_hello ≡ r
user_entry f [] rest r e n = tlv_loop_more f (suc f) rest _ r (omega arith) e n
user_entry f (u ∷ us) rest r e n =
    ap (λ k. tlv_loop (suc f) (k ++ rest) new_hello) (user_tlv-cons u us)
    ∙ tlv_loop_entry f 1 0 (length (take 64 (u ∷ us))) (take 64 (u ∷ us)) rest new_hello
        (record new_hello { user_id = take 64 (u ∷ us) }) (omega arith)
        (user_switch (0 * 256 + length (take 64 (u ∷ us))) (take 64 (u ∷ us)) rest new_hello
          (omega arith) (omega (arith, length-take 64 (u ∷ us)))
          (omega (arith, length-take 64 (u ∷ us))))
    ∙ e

encode_hello_loop :
    (user : List ℕ) (caps : ℕ) (na : Option (List ℕ)) (fuel : ℕ)
    → IsU32 caps
    → IsNa32 na
    → 4 ≤ fuel
    → tlv_loop fuel (drop 2 (encode_hello user caps na)) new_hello
      ≡ accepted (hello_of user caps na)
unfolding encode_hello
encode_hello_loop user caps na fuel hc hn l =
    tlv_loop_more 4 fuel _ new_hello _ l
      (user_entry 3 user _ _
        (caps_entry 2 caps (na32_tlv na) (record new_hello { user_id = take 64 user }) hc
          ∙ na32_entry 0 na
              (record new_hello { user_id = take 64 user; has_caps = true; caps = caps }) hn refl
              refl)
        (λ e. cc))
      (λ e. cc)

-- `parse_hello` recovers from what `encode_hello` wrote the user name, cut to 64 bytes, the
-- capability word, and whether there is a nonce and which.
pub parse_hello-encode_hello :
    (user : List ℕ) (caps : ℕ) (na : Option (List ℕ))
    → IsU32 caps
    → IsNa32 na
    → parse_hello (encode_hello user caps na) new_hello ≡ accepted (hello_of user caps na)
parse_hello-encode_hello user caps na hc hn =
    unfold encode_hello in
    parse_hello_lem (user_tlv user ++ body) new_hello
    ∙ encode_hello_loop user caps na _ hc hn (omega (arith, length-append (user_tlv user) body))
  where
    body : List ℕ
    body = 0x02 ∷ 0x00 ∷ 0x04 ∷ (le32 caps ++ na32_tlv na)
