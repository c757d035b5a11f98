-- ===== src/Bluez/Central/Subscribing.antt =====
-- From the reply of Connect to a link that is ready.
use bitchat_clone.Base.{
  ℕ, ◌≡◌, sym, subst, ap, ◌∙◌, Bool, true, false, List, Option, none, some, arith,
}
use bitchat_clone.Dbus.{Called, replied, bad_message, refused, Objects}
use bitchat_clone.Bluez.{central, Config, Impl, no_bytes, ready_as}
use bitchat_clone.Bluez.Central.{
  start_discovery, stop_discovery, central_enable_notify, central_discover_services,
}
use bitchat_clone.Bluez.Central.Gatt.{central_find_gatt_paths, gatt_paths_ready, paths_of}
use bitchat_clone.Bluez.Central.Gatt.Parts.{objects_readable, objects_parts, all_parts}
use bitchat_clone.Bluez.Central.Gatt.Complete.{find_gatt_paths_complete}
use bitchat_clone.Bluez.Central.Signals.{on_connect_reply}
use bitchat_clone.Bluez.Central.Pump.{
  Answers, forget_unconnected, notify_if, discovered, scan_if_due, connect_if_due, subscribe_if_due,
  discovery_policy, refresh_if_due, central_pump,
}
use bitchat_clone.Bluez.Central.Machine.{on_reply}
use bitchat_clone.Bluez.Central.Scan.Taken.{refresh-Still}
use bitchat_clone.Bluez.Central.Connecting.{Waiting}

-- The device is connected and its services are not resolved.
pub record Connected (dev : List ℕ) (i : Impl) : Type 0 where
  pub bus : i.bus ≡ true
  pub connected : i.connected ≡ true
  pub subscribed : i.subscribed ≡ false
  pub device : i.dev_path ≡ dev

pub reply-Connected :
    (now : ℕ) (dev : List ℕ) (i : Impl) → Waiting dev i → Connected dev (on_reply now none i)
unfolding on_connect_reply
reply-Connected now dev i h = ground arith

discover-Connected :
    (called : Called) (dev : List ℕ) (i : Impl)
    → Connected dev i
    → Connected dev (central_discover_services called i).0
unfolding central_discover_services
discover-Connected called dev i h = ground arith

pub discovered-Connected :
    (a : Answers) (dev : List ℕ) (i : Impl) → Connected dev i → Connected dev (discovered a i)
discovered-Connected a dev i h = ground (arith, discover-Connected a.discover dev i h)

pub find-Connected :
    (cfg : Config) (reply : Option Objects) (dev : List ℕ) (i : Impl)
    → Connected dev i
    → Connected dev (central_find_gatt_paths cfg reply i).0
unfolding central_find_gatt_paths
find-Connected cfg reply dev i h = ground arith

pub notify-ready :
    (dev : List ℕ) (w : Impl × Bool)
    → Connected dev w.0
    → w.1 ≡ true
    → gatt_paths_ready (paths_of w.0) ≡ true
    → ready_as central (some (notify_if replied w)) ≡ true
unfolding central_enable_notify
notify-ready dev (i, ok) h e g = ground arith

subscribe-ready :
    (cfg : Config) (a : Answers) (os : Objects) (dev : List ℕ) (i : Impl)
    → Connected dev i
    → no_bytes dev ≡ false
    → a.gatt ≡ some os
    → objects_readable os.list ≡ true
    → all_parts (objects_parts cfg dev os.list) ≡ true
    → a.notify ≡ replied
    → ready_as central (some (subscribe_if_due cfg a i)) ≡ true
unfolding subscribe_if_due
subscribe-ready cfg a os dev i h d g r p n =
    let j = discovered a i in
    let h' = discovered-Connected a dev i h in
    let none_yet = subst (λ path. no_bytes path ≡ false) (sym h'.device) d in
    let there =
      subst (λ path. all_parts (objects_parts cfg path os.list) ≡ true) (sym h'.device) p in
    let (ok, paths) = find_gatt_paths_complete cfg os j h'.bus none_yet r there in
    let ready =
      notify-ready dev (central_find_gatt_paths cfg (some os) j)
        (find-Connected cfg (some os) dev j h') ok paths in
    ground arith

start-ready :
    (called : Called) (i : Impl)
    → ready_as central (some (start_discovery called i).0) ≡ ready_as central (some i)
unfolding start_discovery
start-ready replied i = ground arith
start-ready bad_message i = ground arith
start-ready (refused name message) i = ground arith

policy-ready :
    (called : Called) (i : Impl)
    → ready_as central (some (discovery_policy called i)) ≡ ready_as central (some i)
unfolding discovery_policy stop_discovery
policy-ready called i = ground (arith, start-ready called i)

refresh-ready :
    (cfg : Config) (a : Answers) (i : Impl)
    → ready_as central (some (refresh_if_due cfg a i)) ≡ ready_as central (some i)
refresh-ready cfg a i = ground (arith, refresh-Still cfg a i)

forget_connected : (i : Impl) → i.connected ≡ true → forget_unconnected i ≡ i
unfolding forget_unconnected
forget_connected i c = ground arith

scan_taken :
    (cfg : Config) (a : Answers) (i : Impl) → no_bytes i.dev_path ≡ false → scan_if_due cfg a i ≡ i
unfolding scan_if_due
scan_taken cfg a i d = ground arith

connect_connected :
    (cfg : Config) (a : Answers) (i : Impl) → i.connected ≡ true → connect_if_due cfg a i ≡ i
unfolding connect_if_due
connect_connected cfg a i c = ground arith

-- What comes before the subscription does nothing to a device that is connected.
pub before_subscribe :
    (cfg : Config) (a : Answers) (dev : List ℕ) (i : Impl)
    → Connected dev i
    → no_bytes dev ≡ false
    → connect_if_due cfg a (scan_if_due cfg a (forget_unconnected i)) ≡ i
before_subscribe cfg a dev i h d =
    ap (λ j. connect_if_due cfg a (scan_if_due cfg a j)) (forget_connected i h.connected)
    ∙ ap (connect_if_due cfg a) (scan_taken cfg a i (ap no_bytes h.device ∙ d))
    ∙ connect_connected cfg a i h.connected

-- The pump after the reply.
pub pump-ready :
    (cfg : Config) (a : Answers) (os : Objects) (dev : List ℕ) (i : Impl)
    → Connected dev i
    → no_bytes dev ≡ false
    → a.gatt ≡ some os
    → objects_readable os.list ≡ true
    → all_parts (objects_parts cfg dev os.list) ≡ true
    → a.notify ≡ replied
    → ready_as central (some (central_pump cfg a i)) ≡ true
unfolding central_pump
pump-ready cfg a os dev i h d g r p n =
    let before = before_subscribe cfg a dev i h d in
    let subscribing =
      subscribe_if_due cfg a (connect_if_due cfg a (scan_if_due cfg a (forget_unconnected i))) in
    refresh-ready cfg a (discovery_policy a.start subscribing)
    ∙ policy-ready a.start subscribing
    ∙ ap (λ j. ready_as central (some (subscribe_if_due cfg a j))) before
    ∙ subscribe-ready cfg a os dev i h d g r p n
