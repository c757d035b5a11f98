-- ===== src/Bluez/Central/Phases/Pumping.antt =====
-- What a pump does to the phase of the link.
use bitchat_clone.Base.{
  ℕ, ◌≡◌, ◌⊎◌, inl, inr, refl, sym, ◌∙◌, Bool, true, false, not, ◌&&◌, ◌||◌, List, [], ◌∷◌, Option,
  none, some, arith, Bool-cases, leb, subst,
}
use bitchat_clone.Dbus.{Called, replied, bad_message, refused, Objects}
use bitchat_clone.Bluez.{Config, Impl, no_bytes}
use bitchat_clone.Bluez.Central.{
  start_discovery, stop_discovery, central_enable_notify, central_connect,
  central_discover_services,
}
use bitchat_clone.Bluez.Central.Gatt.{central_find_gatt_paths}
use bitchat_clone.Bluez.Central.Scan.{
  Device, has_peer, on_found, all_found, update, whole_or_none, central_cold_scan,
}
use bitchat_clone.Bluez.Central.Pump.{
  Answers, forget_unconnected, notify_if, discovered, scan_if_due, connect_if_due, subscribe_if_due,
  discovery_policy, refresh_if_due, central_pump,
}
use bitchat_clone.Bluez.Central.Phases.{
  Phase, apart, trying, linked, ready, phase, Move, stays, dials, subscribes,
}
use bitchat_clone.Bluez.Central.Machine.{pumped}

all_found-phase :
    (cfg : Config) (only : Bool) (now : ℕ) (found : List (List ℕ × Device)) (i : Impl)
    → phase (all_found cfg only now found i) ≡ phase i
unfolding all_found
all_found-phase cfg only now [] i = refl
all_found-phase cfg only now ((path, d) ∷ rest) i =
    all_found-phase cfg only now rest (on_found cfg only now path d i)
    ∙ on_found-phase cfg only now path d i
  where
    on_found-phase :
        (cfg : Config) (only : Bool) (now : ℕ) (path : List ℕ) (d : Device) (i : Impl)
        → phase (on_found cfg only now path d i) ≡ phase i
    on_found-phase cfg only now path d i = ground arith

update-phase :
    (cfg : Config) (only : Bool) (now : ℕ) (found : Option (List (List ℕ × Device))) (i : Impl)
    → phase (update cfg only now found i) ≡ phase i
update-phase cfg only now none i = refl
update-phase cfg only now (some found) i = all_found-phase cfg only now found i

cold_scan-phase :
    (cfg : Config) (only : Bool) (now : ℕ) (reply : Option Objects) (i : Impl)
    → phase (central_cold_scan cfg only now reply i) ≡ phase i
unfolding central_cold_scan
cold_scan-phase cfg only now reply i =
    ground (arith, update-phase cfg only now (whole_or_none cfg reply) i)

scan-phase : (cfg : Config) (a : Answers) (i : Impl) → phase (scan_if_due cfg a i) ≡ phase i
unfolding scan_if_due
scan-phase cfg a i =
    ground
      (arith, cold_scan-phase cfg false a.scan_ms a.scan (record i { last_refresh_ms = a.scan_ms }))

refresh-phase : (cfg : Config) (a : Answers) (i : Impl) → phase (refresh_if_due cfg a i) ≡ phase i
unfolding refresh_if_due
refresh-phase cfg a i =
    ground
      (arith, cold_scan-phase cfg true a.refresh_ms a.refresh (record i { refresh_req = false }))

forget-phase : (i : Impl) → phase (forget_unconnected i) ≡ phase i
unfolding forget_unconnected
forget-phase i = ground arith

pub start-phase : (called : Called) (i : Impl) → phase (start_discovery called i).0 ≡ phase i
unfolding start_discovery
start-phase replied i = ground arith
start-phase bad_message i = ground arith
start-phase (refused name message) i = ground arith

policy-phase : (called : Called) (i : Impl) → phase (discovery_policy called i) ≡ phase i
unfolding discovery_policy stop_discovery
policy-phase called i = ground (arith, start-phase called i)

discover-phase :
    (called : Called) (i : Impl) → phase (central_discover_services called i).0 ≡ phase i
unfolding central_discover_services
discover-phase called i = ground arith

discovered-phase : (a : Answers) (i : Impl) → phase (discovered a i) ≡ phase i
discovered-phase a i = ground (arith, discover-phase a.discover i)

find-phase :
    (cfg : Config) (reply : Option Objects) (i : Impl)
    → phase (central_find_gatt_paths cfg reply i).0 ≡ phase i
unfolding central_find_gatt_paths
find-phase cfg reply i = ground arith

-- A pump either tries a connection, or it does not touch the phase there.
abbrev Dialled : Answers → Phase → Phase → Type 0
Dialled a p q = (q ≡ p) ⊎ ((p ≡ apart) × (q ≡ trying) × (a.connect ≡ true))

connect-phase :
    (cfg : Config) (a : Answers) (i : Impl) → Dialled a (phase i) (phase (connect_if_due cfg a i))
unfolding connect_if_due central_connect stop_discovery
connect-phase cfg a i = elim (Bool-cases (i.connected || i.connect_inflight || not a.connect)) [
  | inl no_call ↦ inl (ground arith)
  | inr call ↦
      elim (Bool-cases (
        not i.bus
        || no_bytes i.dev_path
        || not (has_peer cfg.peer_addr)
        || not (leb i.next_connect_at_ms a.connect_ms))) [
          | inl idle ↦ inl (ground arith)
          | inr due ↦ inr (ground arith, ground arith, ground arith)
        ]
]

abbrev Subscribed : Called → Phase → Phase → Type 0
Subscribed called p q = (q ≡ p) ⊎ ((p ≡ linked) × (q ≡ ready) × (called ≡ replied))

notify-phase :
    (called : Called) (w : Impl × Bool) → Subscribed called (phase w.0) (phase (notify_if called w))
unfolding central_enable_notify
notify-phase called (i, false) = inl refl
notify-phase replied (i, true) =
    elim (Bool-cases (not i.bus || no_bytes i.peer_tx_path || not i.connected || i.subscribed)) [
      | inl idle ↦ inl (ground arith)
      | inr due ↦ inr (ground arith, ground arith, refl)
    ]
notify-phase bad_message (i, true) = inl (ground arith)
notify-phase (refused name message) (i, true) = inl (ground arith)

subscribe-phase :
    (cfg : Config) (a : Answers) (i : Impl)
    → Subscribed a.notify (phase i) (phase (subscribe_if_due cfg a i))
unfolding subscribe_if_due
subscribe-phase cfg a i = elim (Bool-cases (i.connected && not i.subscribed)) [
  | inl due ↦ rw due (
      subst
        (λ p.
          Subscribed a.notify p
            (phase (notify_if a.notify (central_find_gatt_paths cfg a.gatt (discovered a i)))))
        (find-phase cfg a.gatt (discovered a i) ∙ discovered-phase a i)
        (notify-phase a.notify (central_find_gatt_paths cfg a.gatt (discovered a i))))
  | inr idle ↦ rw idle (inl refl)
]

both_moves :
    (a : Answers) (p q r : Phase) → Dialled a p q → Subscribed a.notify q r → Move (pumped a) p r
both_moves a p q r (inl e) (inl f) = subst (λ x. Move (pumped a) p x) (sym (f ∙ e)) stays
both_moves a p q r (inl e) (inr (l, f, n)) =
    subst (λ x. Move (pumped a) x r) (sym (sym e ∙ l))
      (subst (λ x. Move (pumped a) linked x) (sym f) (subscribes n))
both_moves a p q r (inr (l, e, c)) (inl f) =
    subst (λ x. Move (pumped a) x r) (sym l)
      (subst (λ x. Move (pumped a) apart x) (sym (f ∙ e)) (dials c))
both_moves a p q r (inr (l, e, c)) (inr (l', f, n)) = absurd (cc (sym e ∙ l'))

-- A pump tries a connection, or subscribes, or leaves the phase as it is.
pub pump-Move :
    (cfg : Config) (a : Answers) (i : Impl)
    → Move (pumped a) (phase i) (phase (central_pump cfg a i))
unfolding central_pump
pump-Move cfg a i =
    let j = scan_if_due cfg a (forget_unconnected i) in
    let k = connect_if_due cfg a j in
    let l = subscribe_if_due cfg a k in
    subst (λ p. Move (pumped a) p (phase (central_pump cfg a i)))
      (scan-phase cfg a (forget_unconnected i) ∙ forget-phase i)
      (subst (λ p. Move (pumped a) (phase j) p)
        (sym (refresh-phase cfg a (discovery_policy a.start l) ∙ policy-phase a.start l))
        (both_moves a (phase j) (phase k) (phase l) (connect-phase cfg a j)
          (subscribe-phase cfg a k)))
