-- ===== src/Bluez/Central/Opened.antt =====
-- The bus, the device and the paths of the central over `central_pump`.
use bitchat_clone.Base.{
  ℕ, ◌≡◌, refl, ap, sym, subst, ◌∙◌, Bool, true, false, ◌&&◌, List, some, arith,
}
use bitchat_clone.Dbus.{Called, replied, bad_message, refused, Objects}
use bitchat_clone.Bluez.{Config, Impl, no_bytes}
use bitchat_clone.Bluez.Central.{
  start_discovery, stop_discovery, central_enable_notify, central_discover_services,
}
use bitchat_clone.Bluez.Central.Gatt.{Paths, paths_of, central_find_gatt_paths}
use bitchat_clone.Bluez.Central.Gatt.Parts.{objects_readable, objects_parts, all_parts}
use bitchat_clone.Bluez.Central.Gatt.Exact.{none_or, objects_ok, find_gatt_paths_exact}
use bitchat_clone.Bluez.Central.Scan.Taken.{refresh-Still, refresh-dev_path}
use bitchat_clone.Bluez.Central.Pump.{
  Answers, forget_unconnected, scan_if_due, connect_if_due, notify_if, discovered, subscribe_if_due,
  discovery_policy, refresh_if_due, central_pump,
}
use bitchat_clone.Bluez.Central.Connecting.{forget-Still, scan-Still}
use bitchat_clone.Bluez.Central.Subscribing.{
  Connected, discovered-Connected, find-Connected, before_subscribe,
}
use bitchat_clone.Bluez.Central.Kept.{
  connect-bus, no_paths, connect-connected, connect-paths_of, refresh-paths_of, scan-paths_of,
  subscribe_unconnected,
}

-- The bus, the device and the paths.
pub record Opened (dev : List ℕ) (paths : Paths) (i : Impl) : Type 0 where
  pub bus : i.bus ≡ true
  pub device : i.dev_path ≡ dev
  pub found : paths_of i ≡ paths

start-Opened :
    (called : Called) (dev : List ℕ) (paths : Paths) (i : Impl)
    → Opened dev paths i
    → Opened dev paths (start_discovery called i).0
unfolding start_discovery
start-Opened replied dev paths i h = ground arith
start-Opened bad_message dev paths i h = ground arith
start-Opened (refused name message) dev paths i h = ground arith

policy-Opened :
    (called : Called) (dev : List ℕ) (paths : Paths) (i : Impl)
    → Opened dev paths i
    → Opened dev paths (discovery_policy called i)
unfolding discovery_policy stop_discovery
policy-Opened called dev paths i h = ground (arith, start-Opened called dev paths i h)

refresh-Opened :
    (cfg : Config) (a : Answers) (dev : List ℕ) (paths : Paths) (i : Impl)
    → Opened dev paths i
    → Opened dev paths (refresh_if_due cfg a i)
refresh-Opened cfg a dev paths i h = record {
  bus = (refresh-Still cfg a i).bus ∙ h.bus;
  device = refresh-dev_path cfg a i ∙ h.device;
  found = refresh-paths_of cfg a i ∙ h.found;
}

notify-Opened :
    (called : Called) (dev : List ℕ) (paths : Paths) (w : Impl × Bool)
    → Opened dev paths w.0
    → Opened dev paths (notify_if called w)
unfolding central_enable_notify
notify-Opened replied dev paths (i, true) h = ground arith
notify-Opened bad_message dev paths (i, true) h = ground arith
notify-Opened (refused name message) dev paths (i, true) h = ground arith
notify-Opened called dev paths (i, false) h = h

discover-paths_of :
    (called : Called) (i : Impl) → paths_of (central_discover_services called i).0 ≡ paths_of i
unfolding central_discover_services
discover-paths_of called i = ground arith

discovered-paths_of : (a : Answers) (i : Impl) → paths_of (discovered a i) ≡ paths_of i
discovered-paths_of a i = ground (arith, discover-paths_of a.discover i)

-- The objects of the device have the three UUIDs at these paths, and no others.
pub record Shows (cfg : Config) (dev : List ℕ) (paths : Paths) (os : Objects) : Type 0 where
  pub readable : objects_readable os.list ≡ true
  pub parts : all_parts (objects_parts cfg dev os.list) ≡ true
  pub only :
      objects_ok (none_or paths.svc) (none_or paths.tx) (none_or paths.rx) cfg dev os.list ≡ true

empty_paths :
    (i : Impl)
    → paths_of i ≡ no_paths
    → no_bytes i.peer_svc_path && no_bytes i.peer_tx_path && no_bytes i.peer_rx_path ≡ true
empty_paths i e = ap (λ g. no_bytes g.svc && no_bytes g.tx && no_bytes g.rx) e

found_paths :
    (cfg : Config) (os : Objects) (dev : List ℕ) (paths : Paths) (i : Impl)
    → Connected dev i
    → no_bytes dev ≡ false
    → paths_of i ≡ no_paths
    → Shows cfg dev paths os
    → paths_of (central_find_gatt_paths cfg (some os) i).0 ≡ paths
found_paths cfg os dev paths i h d none_yet shown =
    let at : (P : List ℕ → Type 0) → P dev → P i.dev_path = λ P. subst P (sym h.device) in
    (find_gatt_paths_exact cfg os i paths.svc paths.tx paths.rx h.bus
      (at (λ path. no_bytes path ≡ false) d) (empty_paths i none_yet) shown.readable
      (at (λ path. all_parts (objects_parts cfg path os.list) ≡ true) shown.parts)
      (at
        (λ path.
          objects_ok (none_or paths.svc) (none_or paths.tx) (none_or paths.rx) cfg path os.list
          ≡ true)
        shown.only)).1

subscribe_connected :
    (cfg : Config) (a : Answers) (i : Impl)
    → i.connected ≡ true
    → i.subscribed ≡ false
    → subscribe_if_due cfg a i
      ≡ notify_if a.notify (central_find_gatt_paths cfg a.gatt (discovered a i))
unfolding subscribe_if_due
subscribe_connected cfg a i c s = ground arith

subscribe-Opened :
    (cfg : Config) (a : Answers) (os : Objects) (dev : List ℕ) (paths : Paths) (i : Impl)
    → Connected dev i
    → no_bytes dev ≡ false
    → paths_of i ≡ no_paths
    → a.gatt ≡ some os
    → Shows cfg dev paths os
    → Opened dev paths (subscribe_if_due cfg a i)
subscribe-Opened cfg a os dev paths i h d none_yet g shown =
    let j = discovered a i in
    let h' = discovered-Connected a dev i h in
    let still = find-Connected cfg (some os) dev j h' in
    let opened : Opened dev paths (central_find_gatt_paths cfg (some os) j).0 = record {
      bus = still.bus;
      device = still.device;
      found = found_paths cfg os dev paths j h' d (discovered-paths_of a i ∙ none_yet) shown;
    } in
    subst (Opened dev paths)
      (sym (
        subscribe_connected cfg a i h.connected h.subscribed
        ∙ ap (λ reply. notify_if a.notify (central_find_gatt_paths cfg reply j)) g))
      (notify-Opened a.notify dev paths (central_find_gatt_paths cfg (some os) j) opened)

-- The pump after the reply.
pub pump-Opened :
    (cfg : Config) (a : Answers) (os : Objects) (dev : List ℕ) (paths : Paths) (i : Impl)
    → Connected dev i
    → no_bytes dev ≡ false
    → paths_of i ≡ no_paths
    → a.gatt ≡ some os
    → Shows cfg dev paths os
    → Opened dev paths (central_pump cfg a i)
unfolding central_pump
pump-Opened cfg a os dev paths i h d none_yet g shown =
    let subscribed = subscribe-Opened cfg a os dev paths i h d none_yet g shown in
    let subscribing = subscribe_if_due cfg a i in
    subst
      (λ j.
        Opened dev paths
          (refresh_if_due cfg a (discovery_policy a.start (subscribe_if_due cfg a j))))
      (sym (before_subscribe cfg a dev i h d))
      (refresh-Opened cfg a dev paths (discovery_policy a.start subscribing)
        (policy-Opened a.start dev paths subscribing subscribed))

policy-paths_of :
    (called : Called) (i : Impl) → i.bus ≡ true → paths_of (discovery_policy called i) ≡ paths_of i
policy-paths_of called i b =
    (policy-Opened called i.dev_path (paths_of i) i
      (record { bus = b; device = refl; found = refl })).found

forget-no_paths : (i : Impl) → i.connected ≡ false → paths_of (forget_unconnected i) ≡ no_paths
unfolding forget_unconnected
forget-no_paths i c = ground arith

-- The first pump after a handover.
pub pump-no_paths :
    (cfg : Config) (a : Answers) (i : Impl)
    → i.bus ≡ true
    → i.connected ≡ false
    → paths_of (central_pump cfg a i) ≡ no_paths
unfolding central_pump
pump-no_paths cfg a i b c =
    let forgot = forget_unconnected i in
    let still = forget-Still i in
    let scanned = scan_if_due cfg a forgot in
    let kept = scan-Still cfg a forgot in
    let connecting = connect_if_due cfg a scanned in
    let alone =
      subscribe_unconnected cfg a connecting
        (connect-connected cfg a scanned ∙ kept.connected ∙ still.connected ∙ c) in
    let open_bus = connect-bus cfg a scanned ∙ kept.bus ∙ still.bus ∙ b in
    refresh-paths_of cfg a (discovery_policy a.start (subscribe_if_due cfg a connecting))
    ∙ ap (λ j. paths_of (discovery_policy a.start j)) alone
    ∙ policy-paths_of a.start connecting open_bus
    ∙ connect-paths_of cfg a scanned
    ∙ scan-paths_of cfg a forgot
    ∙ forget-no_paths i c
