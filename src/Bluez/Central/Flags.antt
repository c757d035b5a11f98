-- ===== src/Bluez/Central/Flags.antt =====
-- The flags of the central's connection agree, whatever the bus does.
use bitchat_clone.Base.{
  ℕ, ◌≡◌, refl, ◌∙◌, Bool, true, false, not, ◌&&◌, ◌||◌, List, [], ◌∷◌, Option, none, some, arith,
  Bool-cases, inl, inr,
}
use bitchat_clone.Dbus.{Called, replied, bad_message, refused, Props, Object, Objects, Changed}
use bitchat_clone.Bluez.{Config, Impl}
use bitchat_clone.Bluez.Central.{
  start_discovery, stop_discovery, central_enable_notify, central_set_discovery_filter,
  central_connect, central_discover_services,
}
use bitchat_clone.Bluez.Central.Gatt.{central_find_gatt_paths}
use bitchat_clone.Bluez.Central.Scan.{
  Device, on_found, all_found, update, whole_or_none, central_cold_scan,
}
use bitchat_clone.Bluez.Central.Signals.{
  on_iface_added, on_iface_removed, on_props_changed, on_connect_reply,
}
use bitchat_clone.Bluez.Central.Pump.{
  Answers, forget_unconnected, notify_if, discovered, scan_if_due, connect_if_due, subscribe_if_due,
  discovery_policy, refresh_if_due, central_pump, handover, let_go, target,
}
use bitchat_clone.Bluez.Central.Machine.{
  Machine, Event, added, removed, changed, replied_connect, pumped, handed, step, run,
}

-- A subscription needs a connection, and there is no discovery while one is tried.
abbrev pub agree : Impl → Bool
agree i = (not i.subscribed || i.connected) && (not i.connect_inflight || not i.discovery_on)

all_found-agree :
    (cfg : Config) (only : Bool) (now : ℕ) (found : List (List ℕ × Device)) (i : Impl)
    → agree (all_found cfg only now found i) ≡ agree i
unfolding all_found
all_found-agree cfg only now [] i = refl
all_found-agree cfg only now ((path, d) ∷ rest) i =
    all_found-agree cfg only now rest (on_found cfg only now path d i)
    ∙ on_found-agree cfg only now path d i
  where
    on_found-agree :
        (cfg : Config) (only : Bool) (now : ℕ) (path : List ℕ) (d : Device) (i : Impl)
        → agree (on_found cfg only now path d i) ≡ agree i
    on_found-agree cfg only now path d i = ground arith

update-agree :
    (cfg : Config) (only : Bool) (now : ℕ) (found : Option (List (List ℕ × Device))) (i : Impl)
    → agree (update cfg only now found i) ≡ agree i
update-agree cfg only now none i = refl
update-agree cfg only now (some found) i = all_found-agree cfg only now found i

cold_scan-agree :
    (cfg : Config) (only : Bool) (now : ℕ) (reply : Option Objects) (i : Impl)
    → agree (central_cold_scan cfg only now reply i) ≡ agree i
unfolding central_cold_scan
cold_scan-agree cfg only now reply i =
    ground (arith, update-agree cfg only now (whole_or_none cfg reply) i)

added-agree :
    (cfg : Config) (now : ℕ) (o : Object) (whole : Bool) (i : Impl)
    → agree (on_iface_added cfg now o whole i) ≡ agree i
unfolding on_iface_added
added-agree cfg now o whole i = ground arith

removed-agree : (path : List ℕ) (i : Impl) → agree i ≡ true → agree (on_iface_removed path i) ≡ true
unfolding on_iface_removed
removed-agree path i h = ground arith

changed-agree :
    (cfg : Config) (s : Changed) (i : Impl)
    → agree i ≡ true
    → agree (on_props_changed cfg s i).0 ≡ true
unfolding on_props_changed
changed-agree cfg s i h = ground arith

reply-agree :
    (now : ℕ) (r : Option (List ℕ × List ℕ)) (i : Impl)
    → agree i ≡ true
    → agree (on_connect_reply now r i) ≡ true
unfolding on_connect_reply
reply-agree now none i h = ground arith
reply-agree now (some e) i h = ground arith

connect-agree :
    (cfg : Config) (a : Answers) (i : Impl) → agree i ≡ true → agree (connect_if_due cfg a i) ≡ true
unfolding connect_if_due central_connect stop_discovery
connect-agree cfg a i h = ground arith

discover-agree :
    (called : Called) (i : Impl) → agree (central_discover_services called i).0 ≡ agree i
unfolding central_discover_services
discover-agree called i = ground arith

find-agree :
    (cfg : Config) (reply : Option Objects) (i : Impl)
    → agree (central_find_gatt_paths cfg reply i).0 ≡ agree i
unfolding central_find_gatt_paths
find-agree cfg reply i = ground arith

scan-agree :
    (cfg : Config) (a : Answers) (i : Impl) → agree i ≡ true → agree (scan_if_due cfg a i) ≡ true
unfolding scan_if_due
scan-agree cfg a i h =
    ground
      (arith, cold_scan-agree cfg false a.scan_ms a.scan (record i { last_refresh_ms = a.scan_ms }))

notify-agree :
    (called : Called) (p : Impl × Bool)
    → p.0.connected ≡ true
    → agree p.0 ≡ true
    → agree (notify_if called p) ≡ true
unfolding central_enable_notify
notify-agree called (i, ok) c h = ground arith

discover-connected :
    (called : Called) (i : Impl) → (central_discover_services called i).0.connected ≡ i.connected
unfolding central_discover_services
discover-connected called i = ground arith

find-connected :
    (cfg : Config) (reply : Option Objects) (i : Impl)
    → (central_find_gatt_paths cfg reply i).0.connected ≡ i.connected
unfolding central_find_gatt_paths
find-connected cfg reply i = ground arith

subscribe-agree :
    (cfg : Config) (a : Answers) (i : Impl)
    → agree i ≡ true
    → agree (subscribe_if_due cfg a i) ≡ true
unfolding subscribe_if_due
subscribe-agree cfg a i h = elim (Bool-cases (i.connected && not i.subscribed)) [
  | inl due ↦ ground (
    arith,
    notify-agree a.notify (central_find_gatt_paths cfg a.gatt (discovered a i)),
    find-connected cfg a.gatt (discovered a i),
    find-agree cfg a.gatt (discovered a i),
    discover-connected a.discover i,
    discover-agree a.discover i,
  )
  | inr idle ↦ ground arith
]

start-agree :
    (called : Called) (i : Impl)
    → i.connect_inflight ≡ false
    → agree i ≡ true
    → agree (start_discovery called i).0 ≡ true
unfolding start_discovery
start-agree replied i e h = ground arith
start-agree bad_message i e h = ground arith
start-agree (refused name message) i e h = ground arith

policy-agree :
    (called : Called) (i : Impl) → agree i ≡ true → agree (discovery_policy called i) ≡ true
unfolding discovery_policy stop_discovery
policy-agree called i h = ground (arith, start-agree called i)

refresh-agree :
    (cfg : Config) (a : Answers) (i : Impl) → agree i ≡ true → agree (refresh_if_due cfg a i) ≡ true
unfolding refresh_if_due
refresh-agree cfg a i h =
    ground
      (arith, cold_scan-agree cfg true a.refresh_ms a.refresh (record i { refresh_req = false }))

forget-agree : (i : Impl) → agree (forget_unconnected i) ≡ agree i
unfolding forget_unconnected
forget-agree i = ground arith

pump-agree :
    (cfg : Config) (a : Answers) (i : Impl) → agree i ≡ true → agree (central_pump cfg a i) ≡ true
unfolding central_pump
pump-agree cfg a i h = refresh-agree cfg a _ (
    policy-agree a.start _
      (subscribe-agree cfg a _ (connect-agree cfg a _ (scan-agree cfg a _ (forget-agree i ∙ h)))))

filtered-agree :
    (call : Props → Called) (cfg : Config) (now : ℕ) (i : Impl)
    → ((central_set_discovery_filter call cfg (let_go now i)).0.connect_inflight ≡ false)
      × (agree (central_set_discovery_filter call cfg (let_go now i)).0 ≡ true)
unfolding central_set_discovery_filter let_go
filtered-agree call cfg now i = (ground arith, ground arith)

handover-agree :
    (cfg : Config) (addr : List ℕ) (now : ℕ) (filter : Props → Called) (start : Called) (i : Impl)
    → agree (handover cfg addr now filter start i) ≡ true
unfolding handover
handover-agree cfg addr now filter start i =
    let (free, ok) = filtered-agree filter (target addr cfg) now i in start-agree start _ free ok

pub step-agree : (m : Machine) (e : Event) → agree m.impl ≡ true → agree (step m e).impl ≡ true
unfolding step
step-agree m (added now o whole) h = added-agree m.cfg now o whole m.impl ∙ h
step-agree m (removed path) h = removed-agree path m.impl h
step-agree m (changed s) h = changed-agree m.cfg s m.impl h
step-agree m (replied_connect now r) h = ground (arith, reply-agree now r m.impl)
step-agree m (pumped a) h = pump-agree m.cfg a m.impl h
step-agree m (handed addr now filter start) h =
    ground (arith, handover-agree m.cfg addr now filter start m.impl)

-- After any signals, replies, pumps and handovers, in any order, from flags that agree: a central
-- that is subscribed is connected, and while a connection is tried there is no discovery.
pub run-agree : (m : Machine) (es : List Event) → agree m.impl ≡ true → agree (run m es).impl ≡ true
unfolding run
run-agree m [] h = h
run-agree m (e ∷ es) h = run-agree (step m e) es (step-agree m e h)
