-- ===== src/Bluez/Central/Alone.antt =====
-- What leaves a central without a peer alone.
use bitchat_clone.Base.{
  ℕ, ◌≡◌, refl, ◌∙◌, Bool, true, false, not, ◌&&◌, List, [], ◌∷◌, Option, none, some, arith,
}
use bitchat_clone.Dbus.{Called, replied, bad_message, refused, Props, Object, Objects, Changed}
use bitchat_clone.Bluez.{Config, Impl, no_bytes}
use bitchat_clone.Bluez.Central.{
  start_discovery, stop_discovery, central_set_discovery_filter, central_discover_services,
}
use bitchat_clone.Bluez.Central.Gatt.{central_find_gatt_paths}
use bitchat_clone.Bluez.Central.Scan.{
  Device, has_peer, on_found, all_found, update, whole_or_none, central_cold_scan,
}
use bitchat_clone.Bluez.Central.Signals.{on_iface_added, on_iface_removed, on_props_changed}
use bitchat_clone.Bluez.Central.Pump.{
  Answers, forget_unconnected, scan_if_due, connect_if_due, subscribe_if_due, discovery_policy,
  refresh_if_due, central_pump, handover, let_go, target,
}

-- No device, and none is tried or subscribed to.
abbrev pub is_alone : Impl → Bool
is_alone i = no_bytes i.dev_path && not i.connect_inflight && not i.subscribed

all_found-is_alone :
    (cfg : Config) (only : Bool) (now : ℕ) (found : List (List ℕ × Device)) (i : Impl)
    → has_peer cfg.peer_addr ≡ false
    → is_alone (all_found cfg only now found i) ≡ is_alone i
unfolding all_found
all_found-is_alone cfg only now [] i p = refl
all_found-is_alone cfg only now ((path, d) ∷ rest) i p =
    all_found-is_alone cfg only now rest (on_found cfg only now path d i) p ∙ one
  where
    one : is_alone (on_found cfg only now path d i) ≡ is_alone i
    one = ground arith

update-is_alone :
    (cfg : Config) (only : Bool) (now : ℕ) (found : Option (List (List ℕ × Device))) (i : Impl)
    → has_peer cfg.peer_addr ≡ false
    → is_alone (update cfg only now found i) ≡ is_alone i
update-is_alone cfg only now none i p = refl
update-is_alone cfg only now (some found) i p = all_found-is_alone cfg only now found i p

cold_scan-is_alone :
    (cfg : Config) (only : Bool) (now : ℕ) (reply : Option Objects) (i : Impl)
    → has_peer cfg.peer_addr ≡ false
    → is_alone (central_cold_scan cfg only now reply i) ≡ is_alone i
unfolding central_cold_scan
cold_scan-is_alone cfg only now reply i p =
    ground (arith, update-is_alone cfg only now (whole_or_none cfg reply) i p)

pub added-is_alone :
    (cfg : Config) (now : ℕ) (o : Object) (whole : Bool) (i : Impl)
    → has_peer cfg.peer_addr ≡ false
    → is_alone (on_iface_added cfg now o whole i) ≡ is_alone i
unfolding on_iface_added
added-is_alone cfg now o whole i p = ground arith

pub removed-is_alone :
    (path : List ℕ) (i : Impl) → is_alone i ≡ true → is_alone (on_iface_removed path i) ≡ true
unfolding on_iface_removed
removed-is_alone path i h = ground arith

pub changed-is_alone :
    (cfg : Config) (s : Changed) (i : Impl)
    → has_peer cfg.peer_addr ≡ false
    → is_alone i ≡ true
    → is_alone (on_props_changed cfg s i).0 ≡ true
unfolding on_props_changed
changed-is_alone cfg s i p h = ground arith

scan-is_alone :
    (cfg : Config) (a : Answers) (i : Impl)
    → has_peer cfg.peer_addr ≡ false
    → is_alone (scan_if_due cfg a i) ≡ is_alone i
unfolding scan_if_due
scan-is_alone cfg a i p = ground (
  arith,
  cold_scan-is_alone cfg false a.scan_ms a.scan (record i { last_refresh_ms = a.scan_ms }) p,
)

refresh-is_alone :
    (cfg : Config) (a : Answers) (i : Impl)
    → has_peer cfg.peer_addr ≡ false
    → is_alone (refresh_if_due cfg a i) ≡ is_alone i
unfolding refresh_if_due
refresh-is_alone cfg a i p =
    ground (
      arith,
      cold_scan-is_alone cfg true a.refresh_ms a.refresh (record i { refresh_req = false }) p,
    )

connect-is_alone :
    (cfg : Config) (a : Answers) (i : Impl)
    → has_peer cfg.peer_addr ≡ false
    → is_alone (connect_if_due cfg a i) ≡ is_alone i
unfolding connect_if_due
connect-is_alone cfg a i p = ground arith

-- Without a device no paths are found, so no subscription is asked for.
subscribe-is_alone :
    (cfg : Config) (a : Answers) (i : Impl)
    → is_alone i ≡ true
    → is_alone (subscribe_if_due cfg a i) ≡ true
unfolding subscribe_if_due central_discover_services central_find_gatt_paths
subscribe-is_alone cfg a i h = ground arith

start-is_alone : (called : Called) (i : Impl) → is_alone (start_discovery called i).0 ≡ is_alone i
unfolding start_discovery
start-is_alone replied i = ground arith
start-is_alone bad_message i = ground arith
start-is_alone (refused name message) i = ground arith

policy-is_alone : (called : Called) (i : Impl) → is_alone (discovery_policy called i) ≡ is_alone i
unfolding discovery_policy stop_discovery
policy-is_alone called i = ground (arith, start-is_alone called i)

forget-is_alone : (i : Impl) → is_alone (forget_unconnected i) ≡ is_alone i
unfolding forget_unconnected
forget-is_alone i = ground arith

pub pump-is_alone :
    (cfg : Config) (a : Answers) (i : Impl)
    → has_peer cfg.peer_addr ≡ false
    → is_alone i ≡ true
    → is_alone (central_pump cfg a i) ≡ true
unfolding central_pump
pump-is_alone cfg a i p h =
    let scanned = scan_if_due cfg a (forget_unconnected i) in
    let connecting = connect_if_due cfg a scanned in
    let subscribing = subscribe_if_due cfg a connecting in
    refresh-is_alone cfg a (discovery_policy a.start subscribing) p
    ∙ policy-is_alone a.start subscribing
    ∙ subscribe-is_alone cfg a connecting (
        connect-is_alone cfg a scanned p
        ∙ scan-is_alone cfg a (forget_unconnected i) p
        ∙ forget-is_alone i
        ∙ h)

filtered-is_alone :
    (call : Props → Called) (cfg : Config) (now : ℕ) (i : Impl)
    → is_alone (central_set_discovery_filter call cfg (let_go now i)).0 ≡ true
unfolding central_set_discovery_filter let_go
filtered-is_alone call cfg now i = ground arith

pub handover-is_alone :
    (cfg : Config) (addr : List ℕ) (now : ℕ) (filter : Props → Called) (start : Called) (i : Impl)
    → is_alone (handover cfg addr now filter start i) ≡ true
unfolding handover
handover-is_alone cfg addr now filter start i =
    start-is_alone start _ ∙ filtered-is_alone filter (target addr cfg) now i
