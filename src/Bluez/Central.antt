-- ===== src/Bluez/Central.antt =====
-- The central role of src/transport/bluez_transport_central.cpp: its single calls of the bus. What a
-- call answers is an argument; the members are those of Impl.
pub mod Scan
pub mod Gatt
pub mod Signals
pub mod Pump
pub mod Machine
pub mod Phases
pub mod Flags
pub mod Device
pub mod Placed
pub mod Target
pub mod Alone
pub mod Parted
pub mod Connecting
pub mod Subscribing
pub mod Reach
pub mod Kept
pub mod Opened
pub mod Runs
use bitchat_clone.Base.{
  ℕ, ◌+◌, Bool, true, false, not, ◌&&◌, ◌||◌, List, [], ◌∷◌, ◌++◌, Option, none, some,
  if◌then◌else◌,
}
use bitchat_clone.Text.{codes, str_eq}
use bitchat_clone.Dbus.{
  Variant, text, texts, boolean, word16, Props, Called, replied, bad_message, refused,
}
use bitchat_clone.Bluez.{Config, Impl, no_bytes}

-- adapter_start_discovery_locked
unfoldable pub start_discovery : Called → Impl → Impl × Bool
start_discovery called i =
    if not i.bus then (i, false) else if i.discovery_on then (i, true) else answer called
  where
    answer : Called → Impl × Bool
    answer replied = (record i { discovery_on = true }, true)
    answer bad_message = (i, false)
    answer (refused name message) =
        if str_eq name (codes "org.bluez.Error.InProgress")
        then (record i { discovery_on = true }, true)
        else (i, false)

-- adapter_stop_discovery_locked: whatever the bus answers, discovery counts as off.
unfoldable pub stop_discovery : Impl → Impl × Bool
stop_discovery i = if not i.bus then (i, false) else (record i { discovery_on = false }, true)

abbrev pub stop_if_on : Impl → Impl
unfolding stop_discovery
stop_if_on i = if i.discovery_on then (stop_discovery i).0 else i

-- char_start_notify_locked
abbrev pub start_notify : Called → Impl → Impl × Bool
start_notify replied i = (record i { subscribed = true }, true)
start_notify _ i = (i, false)

unfoldable pub central_enable_notify : Called → Impl → Impl × Bool
central_enable_notify called i =
    if not i.bus || no_bytes i.peer_tx_path then (i, false) else start_notify called i

-- What SetDiscoveryFilter is called with.
abbrev pub discovery_filter : Config → Props
discovery_filter cfg =
    (codes "Transport", text (codes "le"))
    ∷ (codes "DuplicateData", boolean false)
    ∷ (codes "UUIDs", texts (cfg.svc_uuid ∷ []))
    ∷ []

abbrev pub is_ok : Called → Bool
is_ok replied = true
is_ok _ = false

-- The argument is the bus's answer to that call, for the filter it is given.
unfoldable pub central_set_discovery_filter : (Props → Called) → Config → Impl → Impl × Bool
central_set_discovery_filter call cfg i = if not i.bus then (i, false) else (
  record i { uuid_filter_ok = is_ok (call (discovery_filter cfg)) },
  is_ok (call (discovery_filter cfg)),
)

-- The first argument says whether Device1.Connect could be submitted.
unfoldable pub central_connect : Bool → Impl → Impl × Bool
unfolding stop_discovery
central_connect submitted i =
    if not i.bus || no_bytes i.dev_path
    then (i, false)
    else if i.connect_inflight || i.connected
    then (i, true)
    else if submitted
    then (record (stop_if_on i) { connect_inflight = true }, true)
    else (stop_if_on i, false)

-- The error says that BlueZ has no such method, and discovers by itself.
abbrev is_unknown_method : Called → Bool
is_unknown_method (refused name message) =
    str_eq name (codes "org.freedesktop.DBus.Error.UnknownMethod")
is_unknown_method _ = false

unfoldable pub central_discover_services : Called → Impl → Impl × Bool
central_discover_services called i =
    if not i.bus || no_bytes i.dev_path
    then (i, false)
    else if i.discover_submitted
    then (i, true)
    else if is_ok called
    then (record i { discover_submitted = true }, true)
    else if is_unknown_method called
    then (record i { discover_submitted = true }, false)
    else (i, false)

-- The options of WriteValue.
abbrev pub write_options : Props
write_options = (codes "type", text (codes "request")) ∷ (codes "offset", word16 0) ∷ []

-- A bad message counts as written.
abbrev pub is_written : Called → Bool
is_written (refused name message) = false
is_written _ = true

-- The bus's answer depends on the characteristic, the bytes and the options.
unfoldable pub central_write : (List ℕ → List ℕ → Props → Called) → List ℕ → Impl → Bool
central_write call f i =
    if not i.bus || no_bytes i.peer_rx_path || no_bytes f
    then false
    else is_written (call i.peer_rx_path f write_options)

-- `central_write_frame`, without its pause: a frame above the frame size is written as well.
abbrev pub send_central_impl : (List ℕ → List ℕ → Props → Called) → Impl → List ℕ → Bool
send_central_impl call i f = central_write call f i
