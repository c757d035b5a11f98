-- ===== src/Bluez/Central/Pump.antt =====
-- `central_pump`, which the bus thread calls after each batch of messages, and the start, the stop
-- and the handover of the central role.
use bitchat_clone.Base.{
  ℕ, ◌+◌, Bool, true, false, not, ◌&&◌, ◌||◌, List, [], Option, none, some, if◌then◌else◌, leb,
}
use bitchat_clone.Dbus.{Called, Objects, Props, Rule}
use bitchat_clone.Bluez.{Config, Impl, Bluez, no_bytes, elapsed}
use bitchat_clone.Bluez.Central.{
  start_discovery, stop_if_on, central_enable_notify, central_set_discovery_filter, central_connect,
  central_discover_services,
}
use bitchat_clone.Bluez.Central.Signals.{added_rule, removed_rule, changed_rule}
use bitchat_clone.Bluez.Central.Gatt.{central_find_gatt_paths}
use bitchat_clone.Bluez.Central.Scan.{has_peer, central_cold_scan}

-- What the clock and the bus answer in one call: the times of the scan, of the connection and of the
-- refresh, and the answers of GetManagedObjects (three times), Connect, DiscoverServices,
-- StartNotify and StartDiscovery.
pub record Answers : Type 0 where
  pub scan_ms : ℕ
  pub connect_ms : ℕ
  pub refresh_ms : ℕ
  pub scan : Option Objects
  pub connect : Bool
  pub discover : Called
  pub gatt : Option Objects
  pub notify : Called
  pub start : Called
  pub refresh : Option Objects

unfoldable pub forget_unconnected : Impl → Impl
forget_unconnected i = if i.connected then i else record i {
  peer_svc_path = [];
  peer_tx_path = [];
  peer_rx_path = [];
  discover_submitted = false;
}

unfoldable pub scan_if_due : Config → Answers → Impl → Impl
scan_if_due cfg a i =
    if no_bytes i.dev_path && leb i.refresh_min_interval_ms (elapsed a.scan_ms i.last_refresh_ms)
    then central_cold_scan cfg false a.scan_ms a.scan (record i { last_refresh_ms = a.scan_ms })
    else i

unfoldable pub connect_if_due : Config → Answers → Impl → Impl
connect_if_due cfg a i =
    if has_peer cfg.peer_addr
      && not (no_bytes i.dev_path)
      && not i.connected
      && not i.connect_inflight
      && leb i.next_connect_at_ms a.connect_ms
    then (central_connect a.connect (record i { next_connect_at_ms = a.connect_ms })).0
    else i

abbrev pub notify_if : Called → Impl × Bool → Impl
notify_if called (i, true) = (central_enable_notify called i).0
notify_if called (i, false) = i

abbrev pub discovered : Answers → Impl → Impl
discovered a i = if i.services_resolved then i else (central_discover_services a.discover i).0

unfoldable pub subscribe_if_due : Config → Answers → Impl → Impl
subscribe_if_due cfg a i =
    if i.connected && not i.subscribed
    then notify_if a.notify (central_find_gatt_paths cfg a.gatt (discovered a i))
    else i

-- Off while a connection is tried, and on otherwise.
unfoldable pub discovery_policy : Called → Impl → Impl
discovery_policy called i =
    if not i.bus
    then i
    else if i.connect_inflight
    then stop_if_on i
    else if i.discovery_on
    then i
    else (start_discovery called i).0

unfoldable pub refresh_if_due : Config → Answers → Impl → Impl
refresh_if_due cfg a i =
    let due = i.refresh_req || leb i.refresh_periodic_ms (elapsed a.refresh_ms i.last_refresh_ms) in
    let i' : Impl = record i { refresh_req = false } in
    if due && i.bus
    then record (central_cold_scan cfg true a.refresh_ms a.refresh i') {
      last_refresh_ms = a.refresh_ms;
    }
    else i'

unfoldable pub central_pump : Config → Answers → Impl → Impl
central_pump cfg a i = refresh_if_due cfg a (
    discovery_policy a.start
      (subscribe_if_due cfg a (connect_if_due cfg a (scan_if_due cfg a (forget_unconnected i)))))

-- What the bus answers when the role starts: whether it opened, whether it takes a subscription, and
-- the calls of SetDiscoveryFilter and StartDiscovery.
pub record Opening : Type 0 where
  pub opened : Bool
  pub matches : Rule → Bool
  pub filter : Props → Called
  pub start : Called

-- The subscriptions, of which a failure ends the start.
abbrev pub subscribed_all : (Rule → Bool) → Bool
subscribed_all matches = matches added_rule && matches removed_rule && matches changed_rule

-- The bus thread is not part of Impl here. After a failure `start` throws Impl away.
unfoldable pub start_central : Config → Opening → Impl → Impl × Bool
start_central cfg o i =
    let i' : Impl = record i { bus = o.opened } in
    if not o.opened || not (subscribed_all o.matches)
    then (i', false)
    else ((start_discovery o.start (central_set_discovery_filter o.filter cfg i').0).0, true)

unfoldable pub stop_central : Impl → Impl
stop_central i = record (stop_if_on i) {
  next_connect_at_ms = 0;
  connect_inflight = false;
  connected = false;
  subscribed = false;
  discover_submitted = false;
  bus = false;
}

-- Up to the unlocking of the bus.
unfoldable pub let_go : ℕ → Impl → Impl
let_go now i = record (stop_if_on i) {
  connect_inflight = false;
  peer_svc_path = [];
  peer_tx_path = [];
  peer_rx_path = [];
  dev_path = [];
  connected = false;
  subscribed = false;
  services_resolved = false;
  discover_submitted = false;
  next_connect_at_ms = now + 300;
  refresh_req = true;
  last_refresh_ms = 0;
}

abbrev pub target : List ℕ → Config → Config
target addr cfg = record cfg { peer_addr = some addr }

-- The work of `handover_to` on a bus that is open: the filter is set and discovery starts again.
unfoldable pub handover : Config → List ℕ → ℕ → (Props → Called) → Called → Impl → Impl
handover cfg addr now filter start i =
    (start_discovery start
      (central_set_discovery_filter filter (target addr cfg) (let_go now i)).0).0

abbrev pub handover_in : List ℕ → ℕ → (Props → Called) → Called → Bluez → Option Impl → Bluez × Bool
handover_in addr now filter start t none = (t, false)
handover_in addr now filter start t (some i) = if not i.bus then (t, false) else (
  record t { cfg = target addr t.cfg; impl = some (handover t.cfg addr now filter start i) },
  true,
)

-- The role is not asked.
unfoldable pub handover_to : List ℕ → ℕ → (Props → Called) → Called → Bluez → Bluez × Bool
handover_to addr now filter start t = handover_in addr now filter start t t.impl
