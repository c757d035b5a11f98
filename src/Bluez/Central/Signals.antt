-- ===== src/Bluez/Central/Signals.antt =====
-- What the bus tells the central: src/transport/bluez_helper_central.cpp.
use bitchat_clone.Base.{
  ℕ, ◌+◌, Bool, true, false, not, ◌&&◌, ◌||◌, List, [], ◌∷◌, ◌++◌, Option, none, some,
  if◌then◌else◌,
}
use bitchat_clone.Text.{codes, str_eq, starts_with}
use bitchat_clone.Dbus.{
  Variant, boolean, bytes, Props, Object, Changed, Rule, Hears, mac_eq, path_mac_eq,
  var_as_has_uuid,
}
use bitchat_clone.Bluez.{Config, Impl, no_bytes}
use bitchat_clone.Bluez.Central.Scan.{
  Device, no_device, ◌>>=◌, read_ifaces, dev_prefix, has_peer, peer_of, is_peer, noted,
}

-- A new device that neither is the peer nor has the service is passed over.
abbrev pub is_wanted : Config → Device → Bool
is_wanted cfg d =
    if has_peer cfg.peer_addr
    then (not (no_bytes d.addr) && mac_eq d.addr (peer_of cfg.peer_addr)) || d.svc_hit
    else d.svc_hit

-- `note_candidate` where the signal has an RSSI.
abbrev pub noted_with_rssi : ℕ → Device → Impl → Impl
noted_with_rssi now d i = if d.have_rssi then noted now d i else i

abbrev pub adopt_new : Config → ℕ → List ℕ → Device → Impl → Impl
adopt_new cfg now path d i =
    if has_peer cfg.peer_addr && no_bytes i.dev_path && is_peer cfg path d
    then noted now d (record i { dev_path = path })
    else i

abbrev pub on_device : Config → ℕ → List ℕ → Option Device → Impl → Impl
on_device cfg now path none i = i
on_device cfg now path (some d) i =
    if is_wanted cfg d then adopt_new cfg now path d (noted_with_rssi now d i) else i

-- `bluez_on_iface_added`: `whole` says whether the reading reached the end.
unfoldable pub on_iface_added : Config → ℕ → Object → Bool → Impl → Impl
on_iface_added cfg now o whole i =
    if starts_with (dev_prefix cfg) o.path && whole
    then on_device cfg now o.path (read_ifaces cfg.svc_uuid o.ifaces no_device) i
    else i

-- `bluez_on_iface_removed`
unfoldable pub on_iface_removed : List ℕ → Impl → Impl
on_iface_removed path i =
    if not (no_bytes i.dev_path) && str_eq i.dev_path path
    then record i { connected = false; subscribed = false; dev_path = [] }
    else i

-- What `bluez_on_props_changed` gathers from the properties. The last one of a name counts, but a
-- UUID list that has the service counts for all.
pub record Noticed : Type 0 where
  pub resolved : Option Bool
  pub connected : Option Bool
  pub has_service : Bool
  pub value : Option (List ℕ)

abbrev pub nothing : Noticed
nothing = record { resolved = none; connected = none; has_service = false; value = none }

abbrev pub read_bool : Variant → Option Bool
read_bool (boolean b) = some b
read_bool _ = none

abbrev pub read_bytes : Variant → Option (List ℕ)
read_bytes (bytes b) = some b
read_bytes _ = none

abbrev pub notice : Config → List ℕ → List ℕ → Variant → Noticed → Option Noticed
notice cfg iface key v n =
    if str_eq key (codes "ServicesResolved") && str_eq iface (codes "org.bluez.Device1")
    then read_bool v >>= (λ b. some (record n { resolved = some b }))
    else if str_eq key (codes "Connected") && str_eq iface (codes "org.bluez.Device1")
    then read_bool v >>= (λ b. some (record n { connected = some b }))
    else if str_eq key (codes "UUIDs") && str_eq iface (codes "org.bluez.Device1")
    then var_as_has_uuid cfg.svc_uuid v
      >>= (λ hit. some (record n { has_service = n.has_service || hit }))
    else if str_eq key (codes "Value") && str_eq iface (codes "org.bluez.GattCharacteristic1")
    then read_bytes v >>= (λ b. some (record n { value = some b }))
    else some n

unfoldable pub notice_all : Config → List ℕ → Props → Noticed → Option Noticed
notice_all cfg iface [] n = some n
notice_all cfg iface ((key, v) ∷ rest) n = notice cfg iface key v n >>= notice_all cfg iface rest

-- UUIDs that arrived later make the peer's device the current one.
abbrev pub adopt_changed : Config → List ℕ → Noticed → Impl → Impl
adopt_changed cfg path n i =
    if no_bytes i.dev_path
      && n.has_service
      && has_peer cfg.peer_addr
      && path_mac_eq path (peer_of cfg.peer_addr)
    then record i { dev_path = path }
    else i

-- Setting `connected_` to the value that it has changes nothing.
abbrev pub set_connected : List ℕ → Option Bool → Impl → Impl
set_connected path none i = i
set_connected path (some true) i =
    if str_eq i.dev_path path then record i { connected = true } else i
set_connected path (some false) i =
    if str_eq i.dev_path path && i.connected
    then record i { connected = false; subscribed = false }
    else i

abbrev pub set_resolved : List ℕ → Option Bool → Impl → Impl
set_resolved path none i = i
set_resolved path (some b) i =
    if str_eq i.dev_path path then record i { services_resolved = b } else i

-- The bytes that go to `deliver_rx_bytes`: of a characteristic under the device.
abbrev pub notified : List ℕ → Option (List ℕ) → Impl → Option (List ℕ)
notified path none i = none
notified path (some b) i =
    if starts_with (i.dev_path ++ codes "/") path && not (no_bytes b) then some b else none

abbrev pub on_noticed : Config → List ℕ → Option Noticed → Impl → Impl × Option (List ℕ)
on_noticed cfg path none i = (i, none)
on_noticed cfg path (some n) i =
    let i' =
      set_resolved path n.resolved (set_connected path n.connected (adopt_changed cfg path n i)) in
    (i', notified path n.value i')

-- `bluez_on_props_changed`
unfoldable pub on_props_changed : Config → Changed → Impl → Impl × Option (List ℕ)
on_props_changed cfg m i =
    on_noticed cfg m.path (if m.whole then notice_all cfg m.iface m.props nothing else none) i

-- The rules of the three subscriptions of `start_central`, all for the root object.
abbrev pub root : List ℕ
root = codes "/"

abbrev pub added_rule : Rule
added_rule = record {
  path = root;
  iface = codes "org.freedesktop.DBus.ObjectManager";
  member = codes "InterfacesAdded";
}

abbrev pub removed_rule : Rule
removed_rule = record {
  path = root;
  iface = codes "org.freedesktop.DBus.ObjectManager";
  member = codes "InterfacesRemoved";
}

abbrev pub changed_rule : Rule
changed_rule = record {
  path = root;
  iface = codes "org.freedesktop.DBus.Properties";
  member = codes "PropertiesChanged";
}

-- A PropertiesChanged signal on the bus: the callback runs if the subscription takes it.
unfoldable pub heard : Hears → Config → Changed → Impl → Impl × Option (List ℕ)
heard hears cfg m i = if hears changed_rule m.path then on_props_changed cfg m i else (i, none)

-- strstr
abbrev pub contains : List ℕ → List ℕ → Bool
contains pattern [] = starts_with pattern []
contains pattern (c ∷ cs) = starts_with pattern (c ∷ cs) || contains pattern cs

abbrev pub backoff_ms : List ℕ → List ℕ → ℕ
backoff_ms name message =
    if str_eq name (codes "org.freedesktop.DBus.Error.NoReply")
      || str_eq name (codes "org.bluez.Error.InProgress")
      || (str_eq name (codes "org.bluez.Error.Failed")
          && contains (codes "already in progress") message)
    then 5000
    else 2000

-- The object of the device is gone.
abbrev pub is_unknown : List ℕ → Bool
is_unknown name =
    str_eq name (codes "org.freedesktop.DBus.Error.UnknownObject")
    || str_eq name (codes "org.freedesktop.DBus.Error.UnknownMethod")

-- `bluez_on_connect_reply`: `none` is a reply that is no error.
unfoldable pub on_connect_reply : ℕ → Option (List ℕ × List ℕ) → Impl → Impl
on_connect_reply now none i = record i {
  connect_inflight = false;
  connected = true;
  services_resolved = false;
}
on_connect_reply now (some (name, message)) i = record i {
  connect_inflight = false;
  connected = false;
  subscribed = false;
  dev_path = if is_unknown name then [] else i.dev_path;
  next_connect_at_ms = now + backoff_ms name message;
}
