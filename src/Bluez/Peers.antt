-- ===== src/Bluez/Peers.antt =====
-- The list of peers, as `list_peers` gives it.
use bitchat_clone.Base.{
  ℕ, ◌+◌, ◌-◌, ◌^◌, ◌<◌, ◌≤◌, ◌≡◌, inl, inr, refl, sym, subst, ◌∙◌, ap, Bool, true, false, ◌&&◌,
  Bool-cases, List, [], ◌∷◌, some, leb, ltb, if◌then◌else◌, arith,
}
use bitchat_clone.Bluez.{
  Peer, Candidate, Bluez, Impl, fresh, stronger, insert_peer, sorted, list_peers, elapsed, ttl_ms,
}

-- The number that 16 bits of a signed field stand for, as the difference of two numbers.
abbrev pub plus : ℕ → ℕ
plus r = if ltb r 32768 then r else 0

abbrev pub minus : ℕ → ℕ
minus r = if ltb r 32768 then 0 else 65536 - r

abbrev pub AtMost : ℕ → ℕ → Type 0
AtMost r s = plus r + minus s ≤ plus s + minus r

-- Each peer's signal is at most that of the one before it.
abbrev pub Descends : List Peer → Type 0
Descends [] = Unit {0}
Descends (p ∷ []) = Unit {0}
Descends (p ∷ q ∷ ps) = AtMost q.rssi p.rssi × Descends (q ∷ ps)

-- The signals are fields of 16 bits, and nothing was seen after `now`.
abbrev pub Plausible : ℕ → List Candidate → Type 0
Plausible now [] = Unit {0}
Plausible now (c ∷ cs) = (c.rssi < 65536) × (c.last_seen_ms ≤ now) × Plausible now cs

abbrev pub Ranged : List Peer → Type 0
Ranged [] = Unit {0}
Ranged (p ∷ ps) = (p.rssi < 65536) × Ranged ps

-- How many pass the test.
abbrev pub passing : (Peer → Bool) → List Peer → ℕ
passing test [] = 0
passing test (p ∷ ps) = (if test p then 1 else 0) + passing test ps

-- How many that were seen in the last two minutes pass it.
abbrev pub passing_seen : (Peer → Bool) → ℕ → List Candidate → ℕ
passing_seen test now [] = 0
passing_seen test now (c ∷ cs) =
    (if leb now (c.last_seen_ms + 120000) && test (record { addr = c.addr; rssi = c.rssi })
      then 1
      else 0)
    + passing_seen test now cs

stronger-AtMost :
    (p q : Peer)
    → p.rssi < 65536
    → q.rssi < 65536
    → (stronger p q ≡ true → AtMost q.rssi p.rssi) × (stronger p q ≡ false → AtMost p.rssi q.rssi)
stronger-AtMost p q hp hq = (λ h. ground arith, λ h. ground arith)

insert_peer-Descends :
    (p : Peer) (ps : List Peer)
    → p.rssi < 65536
    → Ranged ps
    → Descends ps
    → Descends (insert_peer p ps)
unfolding insert_peer
insert_peer-Descends p [] hp hs h = tt
insert_peer-Descends p (q ∷ []) hp hs h = elim (Bool-cases (stronger q p)) [
  | inl s ↦ rw s ((stronger-AtMost q p hs.0 hp).0 s, tt)
  | inr s ↦ rw s ((stronger-AtMost q p hs.0 hp).1 s, tt)
]
insert_peer-Descends p (q ∷ r ∷ ps) hp hs h =
    let rest = insert_peer-Descends p (r ∷ ps) hp hs.1 h.1 in
    elim (Bool-cases (stronger q p)) [
      | inl s ↦ rw s (elim (Bool-cases (stronger r p)) [
        | inl t ↦ rw t (h.0, rw t at rest)
        | inr t ↦ rw t ((stronger-AtMost q p hs.0 hp).0 s, rw t at rest)
      ])
      | inr s ↦ rw s ((stronger-AtMost q p hs.0 hp).1 s, h)
    ]

insert_peer-Ranged :
    (p : Peer) (ps : List Peer) → p.rssi < 65536 → Ranged ps → Ranged (insert_peer p ps)
unfolding insert_peer
insert_peer-Ranged p [] hp hs = (hp, tt)
insert_peer-Ranged p (q ∷ qs) hp hs = elim (Bool-cases (stronger q p)) [
  | inl s ↦ rw s (hs.0, insert_peer-Ranged p qs hp hs.1)
  | inr s ↦ rw s (hp, hs)
]

sorted_lem : (ps : List Peer) → Ranged ps → Ranged (sorted ps) × Descends (sorted ps)
sorted_lem [] h = (tt, tt)
sorted_lem (p ∷ ps) h =
    let (ranged, descends) = sorted_lem ps h.1 in
    (
      insert_peer-Ranged p (sorted ps) h.0 ranged,
      insert_peer-Descends p (sorted ps) h.0 ranged descends,
    )

passing-insert_peer :
    (test : Peer → Bool) (p : Peer) (ps : List Peer)
    → passing test (insert_peer p ps) ≡ passing test (p ∷ ps)
unfolding insert_peer
passing-insert_peer test p [] = refl
passing-insert_peer test p (q ∷ ps) = ground (arith, passing-insert_peer test p ps)

passing-sorted : (test : Peer → Bool) (ps : List Peer) → passing test (sorted ps) ≡ passing test ps
passing-sorted test [] = refl
passing-sorted test (p ∷ ps) =
    passing-insert_peer test p (sorted ps)
    ∙ ap (λ n. (if test p then 1 else 0) + n) (passing-sorted test ps)

-- Where nothing was seen after `now`, the difference of two `uint64_t` does not wrap.
fresh_test :
    (now then_ : ℕ)
    → now < 2 ^ 64
    → then_ ≤ now
    → leb (elapsed now then_) ttl_ms ≡ leb now (then_ + 120000)
fresh_test now then_ small before = ground arith

fresh-Ranged : (now : ℕ) (cs : List Candidate) → Plausible now cs → Ranged (fresh now cs)
fresh-Ranged now [] h = tt
fresh-Ranged now (c ∷ cs) h = elim (Bool-cases (leb (elapsed now c.last_seen_ms) ttl_ms)) [
  | inl s ↦ rw s (h.0, fresh-Ranged now cs h.2)
  | inr s ↦ rw s (fresh-Ranged now cs h.2)
]

passing-fresh :
    (test : Peer → Bool) (now : ℕ) (cs : List Candidate)
    → now < 2 ^ 64
    → Plausible now cs
    → passing test (fresh now cs) ≡ passing_seen test now cs
passing-fresh test now [] small h = refl
passing-fresh test now (c ∷ cs) small h =
    let rest = passing-fresh test now cs small h.2 in
    let same = fresh_test now c.last_seen_ms small h.1 in
    elim (Bool-cases (leb (elapsed now c.last_seen_ms) ttl_ms)) [
      | inl s ↦ rw (s, sym same ∙ s) (omega (arith, rest))
      | inr s ↦ rw (s, sym same ∙ s) (omega (arith, rest))
    ]

listed_lem :
    (now : ℕ) (t : Bluez) (i : Impl)
    → t.impl ≡ some i
    → i.bus ≡ true
    → (list_peers now t).1 ≡ sorted (fresh now i.candidates)
unfolding list_peers
listed_lem now t i e b = ground arith

-- On a transport with Impl and the bus, with signals of 16 bits and a clock of 64 bits that never shows
-- less than a candidate's time: each listed peer's signal, read as a signed number, is at most that of
-- the one before it, and the peers are the candidates seen in the last 120000 milliseconds, each as
-- often: as many of them pass any test.
pub list_peers_sorted :
    (now : ℕ) (t : Bluez) (i : Impl) (test : Peer → Bool)
    → t.impl ≡ some i
    → i.bus ≡ true
    → now < 2 ^ 64
    → Plausible now i.candidates
    → Descends (list_peers now t).1
      × (passing test (list_peers now t).1 ≡ passing_seen test now i.candidates)
list_peers_sorted now t i test e b small h =
    let listed = fresh now i.candidates in
    subst (λ ps. Descends ps × (passing test ps ≡ passing_seen test now i.candidates))
      (sym (listed_lem now t i e b))
      (
        (sorted_lem listed (fresh-Ranged now i.candidates h)).1,
        passing-sorted test listed ∙ passing-fresh test now i.candidates small h,
      )
