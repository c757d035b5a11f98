-- ===== src/Bluez/Central/Phases/Steps.antt =====
-- Steps of the central's machine as moves of the link.
use bitchat_clone.Base.{
  ℕ, ◌≡◌, ◌⊎◌, inl, inr, refl, sym, ◌∙◌, Bool, true, false, not, ◌&&◌, List, Option, none, some,
  arith, Bool-cases, subst,
}
use bitchat_clone.Text.{str_eq}
use bitchat_clone.Dbus.{Called, Props, Object, Changed}
use bitchat_clone.Bluez.{Config, Impl, no_bytes}
use bitchat_clone.Bluez.Central.{central_set_discovery_filter}
use bitchat_clone.Bluez.Central.Signals.{
  Noticed, adopt_changed, set_connected, set_resolved, on_noticed, on_iface_added, on_iface_removed,
  on_props_changed, on_connect_reply,
}
use bitchat_clone.Bluez.Central.Pump.{handover, let_go, target}
use bitchat_clone.Bluez.Central.Machine.{
  Machine, Event, added, removed, changed, replied_connect, pumped, handed, on_reply, hand, step,
}
use bitchat_clone.Bluez.Central.Flags.{agree}
use bitchat_clone.Bluez.Central.Phases.{
  Phase, apart, trying, linked, phase, Move, stays, answered, fails, comes, leaves, vanishes,
  restarts,
}
use bitchat_clone.Bluez.Central.Phases.Pumping.{pump-Move, start-phase}

-- A move to the phase that it stays in.
unmoved : (e : Event) (p q : Phase) → q ≡ p → Move e p q
unmoved e p q same = subst (λ x. Move e p x) (sym same) stays

added-phase :
    (cfg : Config) (now : ℕ) (o : Object) (whole : Bool) (i : Impl)
    → phase (on_iface_added cfg now o whole i) ≡ phase i
unfolding on_iface_added
added-phase cfg now o whole i = ground arith

removed-Move :
    (path : List ℕ) (i : Impl) → Move (removed path) (phase i) (phase (on_iface_removed path i))
unfolding on_iface_removed
removed-Move path i =
    elim (Bool-cases (i.connected && not (no_bytes i.dev_path) && str_eq i.dev_path path)) [
      | inl gone ↦ vanishes (ground arith) (ground arith)
      | inr other ↦ unmoved _ _ _ (ground arith)
    ]

connected-Move :
    (s : Changed) (path : List ℕ) (o : Option Bool) (i : Impl)
    → agree i ≡ true
    → Move (changed s) (phase i) (phase (set_connected path o i))
connected-Move s path none i h = stays
connected-Move s path (some true) i h =
    elim (Bool-cases (str_eq i.dev_path path && not i.connected)) [
      | inl new ↦
          subst (λ x. Move (changed s) (phase i) x) (sym (linked_now i new h))
            (comes (ground arith))
      | inr old ↦ unmoved _ _ _ (ground arith)
    ]
  where
    linked_now :
        (i : Impl)
        → str_eq i.dev_path path && not i.connected ≡ true
        → agree i ≡ true
        → phase (set_connected path (some true) i) ≡ linked
    linked_now i new h = ground arith
connected-Move s path (some false) i h = elim (Bool-cases (str_eq i.dev_path path && i.connected)) [
  | inl gone ↦ leaves (ground arith) (ground arith)
  | inr other ↦ unmoved _ _ _ (ground arith)
]

adopt-phase :
    (cfg : Config) (path : List ℕ) (n : Noticed) (i : Impl)
    → (phase (adopt_changed cfg path n i) ≡ phase i)
      × (agree (adopt_changed cfg path n i) ≡ agree i)
adopt-phase cfg path n i = (ground arith, ground arith)

resolved-phase :
    (path : List ℕ) (o : Option Bool) (i : Impl) → phase (set_resolved path o i) ≡ phase i
resolved-phase path none i = refl
resolved-phase path (some b) i = ground arith

noticed-Move :
    (cfg : Config) (s : Changed) (o : Option Noticed) (i : Impl)
    → agree i ≡ true
    → Move (changed s) (phase i) (phase (on_noticed cfg s.path o i).0)
noticed-Move cfg s none i h = stays
noticed-Move cfg s (some n) i h =
    let j = adopt_changed cfg s.path n i in
    let (same, agrees) = adopt-phase cfg s.path n i in
    subst (λ x. Move (changed s) x (phase (on_noticed cfg s.path (some n) i).0)) same
      (subst (λ x. Move (changed s) (phase j) x)
        (sym (resolved-phase s.path n.resolved (set_connected s.path n.connected j)))
        (connected-Move s s.path n.connected j (agrees ∙ h)))

changed-Move :
    (cfg : Config) (s : Changed) (i : Impl)
    → agree i ≡ true
    → Move (changed s) (phase i) (phase (on_props_changed cfg s i).0)
unfolding on_props_changed
changed-Move cfg s i h = noticed-Move cfg s _ i h

answer-phase :
    (now : ℕ) (i : Impl)
    → agree i ≡ true
    → (phase (on_reply now none i) ≡ phase i)
      ⊎ ((phase i ≡ trying) × (phase (on_reply now none i) ≡ linked))
unfolding on_connect_reply
answer-phase now i h = elim (Bool-cases (i.connect_inflight && not i.connected)) [
  | inl waits ↦ inr (ground arith, ground arith)
  | inr other ↦ inl (ground arith)
]

fail-phase :
    (now : ℕ) (e : List ℕ × List ℕ) (i : Impl)
    → (phase (on_reply now (some e) i) ≡ phase i) ⊎ (phase (on_reply now (some e) i) ≡ apart)
unfolding on_connect_reply
fail-phase now (name, message) i = elim (Bool-cases i.connect_inflight) [
  | inl waits ↦ inr (ground arith)
  | inr closed ↦ inl (ground arith)
]

reply-Move :
    (now : ℕ) (r : Option (List ℕ × List ℕ)) (i : Impl)
    → agree i ≡ true
    → Move (replied_connect now r) (phase i) (phase (on_reply now r i))
reply-Move now none i h = elim (answer-phase now i h) [
  | inl same ↦ unmoved _ _ _ same
  | inr (p, q) ↦
      subst (λ x. Move (replied_connect now none) x (phase (on_reply now none i))) (sym p)
        (subst (λ x. Move (replied_connect now none) trying x) (sym q) answered)
]
reply-Move now (some e) i h = elim (fail-phase now e i) [
  | inl same ↦ unmoved _ _ _ same
  | inr q ↦ subst (λ x. Move (replied_connect now (some e)) (phase i) x) (sym q) fails
]

let_go-phase :
    (call : Props → Called) (cfg : Config) (now : ℕ) (i : Impl)
    → phase (central_set_discovery_filter call cfg (let_go now i)).0 ≡ apart
unfolding central_set_discovery_filter let_go
let_go-phase call cfg now i = ground arith

handover-phase :
    (cfg : Config) (addr : List ℕ) (now : ℕ) (filter : Props → Called) (start : Called) (i : Impl)
    → phase (handover cfg addr now filter start i) ≡ apart
unfolding handover
handover-phase cfg addr now filter start i =
    start-phase start _ ∙ let_go-phase filter (target addr cfg) now i

handed-phase :
    (addr : List ℕ) (now : ℕ) (filter : Props → Called) (start : Called) (m : Machine)
    → (phase (hand addr now filter start m).impl ≡ phase m.impl)
      ⊎ (phase (hand addr now filter start m).impl ≡ apart)
handed-phase addr now filter start m = elim (Bool-cases m.impl.bus) [
  | inl b ↦ inr (ground (arith, handover-phase m.cfg addr now filter start m.impl))
  | inr closed ↦ inl (ground arith)
]

-- One step of the machine is one move of the link.
pub step-Move :
    (m : Machine) (e : Event) → agree m.impl ≡ true → Move e (phase m.impl) (phase (step m e).impl)
unfolding step
step-Move m (added now o whole) h = unmoved _ _ _ (added-phase m.cfg now o whole m.impl)
step-Move m (removed path) h = removed-Move path m.impl
step-Move m (changed s) h = changed-Move m.cfg s m.impl h
step-Move m (replied_connect now r) h = reply-Move now r m.impl h
step-Move m (pumped a) h = pump-Move m.cfg a m.impl
step-Move m (handed addr now filter start) h = elim (handed-phase addr now filter start m) [
  | inl same ↦ unmoved _ _ _ same
  | inr q ↦ subst (λ x. Move (handed addr now filter start) (phase m.impl) x) (sym q) restarts
]
