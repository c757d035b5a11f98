-- ===== src/Bluez/Central/Device.antt =====
-- The calls of the bus that leave the central's device as it is.
use bitchat_clone.Base.{ℕ, ◌≡◌, ◌∙◌, Bool, List, [], Option, arith}
use bitchat_clone.Dbus.{Called, replied, bad_message, refused, Props, Objects}
use bitchat_clone.Bluez.{Config, Impl}
use bitchat_clone.Bluez.Central.{
  start_discovery, stop_discovery, central_enable_notify, central_set_discovery_filter,
  central_connect, central_discover_services,
}
use bitchat_clone.Bluez.Central.Gatt.{central_find_gatt_paths}
use bitchat_clone.Bluez.Central.Pump.{
  Answers, forget_unconnected, notify_if, discovered, connect_if_due, subscribe_if_due,
  discovery_policy, handover, let_go, target,
}

pub start-dev_path :
    (called : Called) (i : Impl) → (start_discovery called i).0.dev_path ≡ i.dev_path
unfolding start_discovery
start-dev_path replied i = ground arith
start-dev_path bad_message i = ground arith
start-dev_path (refused name message) i = ground arith

pub connect-dev_path :
    (cfg : Config) (a : Answers) (i : Impl) → (connect_if_due cfg a i).dev_path ≡ i.dev_path
unfolding connect_if_due central_connect stop_discovery
connect-dev_path cfg a i = ground arith

discover-dev_path :
    (called : Called) (i : Impl) → (central_discover_services called i).0.dev_path ≡ i.dev_path
unfolding central_discover_services
discover-dev_path called i = ground arith

find-dev_path :
    (cfg : Config) (reply : Option Objects) (i : Impl)
    → (central_find_gatt_paths cfg reply i).0.dev_path ≡ i.dev_path
unfolding central_find_gatt_paths
find-dev_path cfg reply i = ground arith

notify-dev_path : (called : Called) (p : Impl × Bool) → (notify_if called p).dev_path ≡ p.0.dev_path
unfolding central_enable_notify
notify-dev_path called (i, ok) = ground arith

pub subscribe-dev_path :
    (cfg : Config) (a : Answers) (i : Impl) → (subscribe_if_due cfg a i).dev_path ≡ i.dev_path
unfolding subscribe_if_due
subscribe-dev_path cfg a i = ground (
  arith,
  notify-dev_path a.notify (central_find_gatt_paths cfg a.gatt (discovered a i)),
  find-dev_path cfg a.gatt (discovered a i),
  discover-dev_path a.discover i,
)

pub policy-dev_path :
    (called : Called) (i : Impl) → (discovery_policy called i).dev_path ≡ i.dev_path
unfolding discovery_policy stop_discovery
policy-dev_path called i = ground (arith, start-dev_path called i)

pub forget-dev_path : (i : Impl) → (forget_unconnected i).dev_path ≡ i.dev_path
unfolding forget_unconnected
forget-dev_path i = ground arith

filter-dev_path :
    (call : Props → Called) (cfg : Config) (i : Impl)
    → (central_set_discovery_filter call cfg i).0.dev_path ≡ i.dev_path
unfolding central_set_discovery_filter
filter-dev_path call cfg i = ground arith

-- After a handover there is no device.
pub handover-dev_path :
    (cfg : Config) (addr : List ℕ) (now : ℕ) (filter : Props → Called) (start : Called) (i : Impl)
    → (handover cfg addr now filter start i).dev_path ≡ []
unfolding handover let_go
handover-dev_path cfg addr now filter start i =
    start-dev_path start _ ∙ filter-dev_path filter (target addr cfg) (let_go now i)
