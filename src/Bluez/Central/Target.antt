-- ===== src/Bluez/Central/Target.antt =====
-- Which device the central takes for its peer.
use bitchat_clone.Base.{
  ℕ, ◌≡◌, ◌∙◌, ap, sym, subst, true, false, ◌||◌, List, [], ◌∷◌, Option, none, some, arith,
}
use bitchat_clone.Dbus.{Called, Props, Changed, path_mac_eq}
use bitchat_clone.Bluez.{Config, Impl, no_bytes}
use bitchat_clone.Bluez.Central.Scan.{peer_of}
use bitchat_clone.Bluez.Central.Signals.{on_iface_removed, on_props_changed, on_connect_reply}
use bitchat_clone.Bluez.Central.Pump.{
  Answers, forget_unconnected, scan_if_due, connect_if_due, subscribe_if_due, discovery_policy,
  refresh_if_due, central_pump,
}
use bitchat_clone.Bluez.Central.Machine.{
  Machine, Event, added, removed, changed, replied_connect, pumped, handed, hand, step, run,
}
use bitchat_clone.Bluez.Central.Placed.{
  on_target, reply_placed, event_placed, events_placed, cold_scan-on_target, added-on_target,
}
use bitchat_clone.Bluez.Central.Device.{
  connect-dev_path, subscribe-dev_path, policy-dev_path, forget-dev_path, handover-dev_path,
}

removed-on_target :
    (cfg : Config) (path : List ℕ) (i : Impl)
    → on_target cfg i ≡ true
    → on_target cfg (on_iface_removed path i) ≡ true
unfolding on_iface_removed
removed-on_target cfg path i h = ground arith

changed-on_target :
    (cfg : Config) (s : Changed) (i : Impl)
    → on_target cfg i ≡ true
    → on_target cfg (on_props_changed cfg s i).0 ≡ true
unfolding on_props_changed
changed-on_target cfg s i h = ground arith

reply-on_target :
    (cfg : Config) (now : ℕ) (r : Option (List ℕ × List ℕ)) (i : Impl)
    → on_target cfg i ≡ true
    → on_target cfg (on_connect_reply now r i) ≡ true
unfolding on_connect_reply
reply-on_target cfg now none i h = h
reply-on_target cfg now (some e) i h = ground arith

scan-on_target :
    (cfg : Config) (a : Answers) (i : Impl)
    → reply_placed cfg.svc_uuid a.scan ≡ true
    → on_target cfg i ≡ true
    → on_target cfg (scan_if_due cfg a i) ≡ true
unfolding scan_if_due
scan-on_target cfg a i p h = ground (
  arith,
  cold_scan-on_target cfg false a.scan_ms a.scan (record i { last_refresh_ms = a.scan_ms }) p h,
)

refresh-on_target :
    (cfg : Config) (a : Answers) (i : Impl)
    → reply_placed cfg.svc_uuid a.refresh ≡ true
    → on_target cfg i ≡ true
    → on_target cfg (refresh_if_due cfg a i) ≡ true
unfolding refresh_if_due
refresh-on_target cfg a i p h = ground (
  arith,
  cold_scan-on_target cfg true a.refresh_ms a.refresh (record i { refresh_req = false }) p h,
)

same_device :
    (cfg : Config) (i j : Impl)
    → j.dev_path ≡ i.dev_path
    → on_target cfg i ≡ true
    → on_target cfg j ≡ true
same_device cfg i j e h =
    subst (λ path. (no_bytes path || path_mac_eq path (peer_of cfg.peer_addr)) ≡ true) (sym e) h

pump-on_target :
    (cfg : Config) (a : Answers) (i : Impl)
    → reply_placed cfg.svc_uuid a.scan ≡ true
    → reply_placed cfg.svc_uuid a.refresh ≡ true
    → on_target cfg i ≡ true
    → on_target cfg (central_pump cfg a i) ≡ true
unfolding central_pump
pump-on_target cfg a i p q h =
    let scanned = scan_if_due cfg a (forget_unconnected i) in
    let connecting = connect_if_due cfg a scanned in
    let subscribing = subscribe_if_due cfg a connecting in
    let same =
      policy-dev_path a.start subscribing
      ∙ subscribe-dev_path cfg a connecting
      ∙ connect-dev_path cfg a scanned in
    refresh-on_target cfg a (discovery_policy a.start subscribing) q (
      same_device cfg scanned (discovery_policy a.start subscribing) same (
        scan-on_target cfg a (forget_unconnected i) p
          (same_device cfg i (forget_unconnected i) (forget-dev_path i) h)))

hand-on_target :
    (m : Machine) (addr : List ℕ) (now : ℕ) (filter : Props → Called) (start : Called)
    → on_target m.cfg m.impl ≡ true
    → on_target (hand addr now filter start m).cfg (hand addr now filter start m).impl ≡ true
hand-on_target m addr now filter start h =
    ground (arith, handover-dev_path m.cfg addr now filter start m.impl)

step-on_target :
    (m : Machine) (e : Event)
    → event_placed m.cfg.svc_uuid e ≡ true
    → on_target m.cfg m.impl ≡ true
    → on_target (step m e).cfg (step m e).impl ≡ true
unfolding step
step-on_target m (added now o whole) p h = added-on_target m.cfg now o whole m.impl p h
step-on_target m (removed path) p h = removed-on_target m.cfg path m.impl h
step-on_target m (changed s) p h = changed-on_target m.cfg s m.impl h
step-on_target m (replied_connect now r) p h = ground (arith, reply-on_target m.cfg now r m.impl)
step-on_target m (pumped a) p h = pump-on_target m.cfg a m.impl (ground arith) (ground arith) h
step-on_target m (handed addr now filter start) p h = hand-on_target m addr now filter start h

step-svc_uuid : (m : Machine) (e : Event) → (step m e).cfg.svc_uuid ≡ m.cfg.svc_uuid
unfolding step
step-svc_uuid m e = ground arith

-- After any signals, replies, pumps and handovers, in any order, where each object that the bus tells of
-- with an Address is at the path of that address: if the central had no device or one with the
-- peer's address in its path, so has it now, for the peer that is now wanted.
pub run-on_target :
    (m : Machine) (es : List Event)
    → events_placed m.cfg.svc_uuid es ≡ true
    → on_target m.cfg m.impl ≡ true
    → on_target (run m es).cfg (run m es).impl ≡ true
unfolding run
run-on_target m [] p h = h
run-on_target m (e ∷ es) p h =
    run-on_target (step m e) es
      (ap (λ svc. events_placed svc es) (step-svc_uuid m e) ∙ ground arith)
      (step-on_target m e (ground arith) h)
