-- ===== src/Bluez/Central/Phases/Refines.antt =====
-- Runs of the central's machine as walks of the link.
use bitchat_clone.Base.{
  ◌≡◌, inl, inr, refl, ap, sym, ◌∙◌, true, false, List, [], ◌∷◌, ◌++◌, some, arith, Bool-cases,
}
use bitchat_clone.Dbus.{replied}
use bitchat_clone.Bluez.{Impl, central, ready_as}
use bitchat_clone.Bluez.Central.Pump.{Answers}
use bitchat_clone.Bluez.Central.Machine.{Machine, Event, pumped, step, run}
use bitchat_clone.Bluez.Central.Flags.{agree, step-agree}
use bitchat_clone.Bluez.Central.Phases.{
  Phase, linked, phase, is_ready, Move, stays, dials, subscribes, answered, fails, comes, leaves,
  vanishes, restarts, Walk, here, on,
}
use bitchat_clone.Bluez.Central.Phases.Steps.{step-Move}

-- The central's machine refines the automaton of `Move`: from flags that agree, whatever signals,
-- replies, pumps and handovers come, each one moves the phase of the link as the automaton allows.
pub run-Walk :
    (m : Machine) (es : List Event)
    → agree m.impl ≡ true
    → Walk (phase m.impl) es (phase (run m es).impl)
unfolding run
run-Walk m [] h = here
run-Walk m (e ∷ es) h = on (step-Move m e h) (run-Walk (step m e) es (step-agree m e h))

entering :
    {e : Event} {p q : Phase}
    → Move e p q
    → is_ready p ≡ false
    → is_ready q ≡ true
    → (a : Answers) × (e ≡ pumped a) × (a.notify ≡ replied) × (p ≡ linked)
entering stays n r = absurd (cc (sym n ∙ r))
entering (dials c) n r = absurd (cc r)
entering (subscribes {a} c) n r = (a, refl, c, refl)
entering answered n r = absurd (cc r)
entering fails n r = absurd (cc r)
entering (comes d) n r = absurd (cc r)
entering (leaves {p} {q} u d) n r = absurd (ground arith)
entering (vanishes {p} {q} u d) n r = absurd (ground arith)
entering restarts n r = absurd (cc r)

-- How a run got the link ready.
abbrev Subscribed : Machine → List Event → Type 0
Subscribed m es =
    (before : List Event) × (a : Answers) × (after : List Event) × (es
      ≡ before ++ (pumped a ∷ after))
    × (a.notify ≡ replied)
    × (phase (run m before).impl ≡ linked)

run-Subscribed :
    (m : Machine) (es : List Event)
    → agree m.impl ≡ true
    → is_ready (phase m.impl) ≡ false
    → is_ready (phase (run m es).impl) ≡ true
    → Subscribed m es
unfolding run
run-Subscribed m [] h n r = absurd (cc (sym n ∙ r))
run-Subscribed m (e ∷ es) h n r = elim (Bool-cases (is_ready (phase (step m e).impl))) [
  | inl up ↦
      let (a, same, ok, l) = entering (step-Move m e h) n up in
      ([], a, es, ap (λ x. x ∷ es) same, ok, l)
  | inr down ↦
      let (before, a, after, same, ok, l) =
        run-Subscribed (step m e) es (step-agree m e h) down r in
      (e ∷ before, a, after, ap (λ x. e ∷ x) same, ok, l)
]

ready_as-phase : (i : Impl) → ready_as central (some i) ≡ is_ready (phase i)
ready_as-phase i = ground arith

linked_flags : (i : Impl) → phase i ≡ linked → (i.connected ≡ true) × (i.subscribed ≡ false)
linked_flags i e = (ground arith, ground arith)

-- From flags that agree and a link that is not ready: if after some signals, replies, pumps and
-- handovers it is ready, then one of them was a pump that found the device connected and not
-- subscribed, and whose StartNotify the peer answered.
pub ready_was_subscribed :
    (m : Machine) (es : List Event)
    → agree m.impl ≡ true
    → ready_as central (some m.impl) ≡ false
    → ready_as central (some (run m es).impl) ≡ true
    → (before : List Event) × (a : Answers) × (after : List Event) × (es
        ≡ before ++ (pumped a ∷ after))
      × (a.notify ≡ replied)
      × ((run m before).impl.connected ≡ true)
      × ((run m before).impl.subscribed ≡ false)
ready_was_subscribed m es h n r =
    let (before, a, after, same, ok, l) =
      run-Subscribed m es h (sym (ready_as-phase m.impl) ∙ n)
        (sym (ready_as-phase (run m es).impl) ∙ r) in
    let (up, open_) = linked_flags (run m before).impl l in (before, a, after, same, ok, up, open_)
