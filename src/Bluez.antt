-- ===== src/Bluez.antt =====
-- The facade BluezTransport of include/transport/bluez_transport.hpp and
-- src/transport/bluez_transport.cpp. What the role's own start and send do over D-Bus is an argument.
pub mod Central
pub mod Peripheral
pub mod Lifecycle
pub mod Peers
pub mod Roles
pub mod Air
pub mod Talk
pub mod Mirror
pub mod Connects
pub mod EndToEnd
mod Runs
use bitchat_clone.Base.{
  ℕ, ◌+◌, ◌-◌, ◌%◌, ◌^◌, Bool, true, false, not, ◌&&◌, ◌||◌, List, [], ◌∷◌, Option, none, some,
  if◌then◌else◌, ltb, leb, ◌==◌,
}
use bitchat_clone.Text.{str_eq}

pub data Role : Type 0 where
  central : Role
  peripheral : Role

-- PeerInfo; `rssi` is the 16 bits of the signed number.
pub record Peer : Type 0 where
  pub addr : List ℕ
  pub rssi : ℕ

pub record Candidate : Type 0 where
  pub addr : List ℕ
  pub rssi : ℕ
  pub last_seen_ms : ℕ

-- BluezConfig, but for the fixed UUIDs of its defaults.
pub record Config : Type 0 where
  pub role : Role
  pub adapter : List ℕ
  pub svc_uuid : List ℕ
  pub tx_uuid : List ℕ
  pub rx_uuid : List ℕ
  pub peer_addr : Option (List ℕ)

-- The members of Impl, without the slots and paths that are only handed to the bus. `bus` says
-- whether the pointer is set.
pub record Impl : Type 0 where
  pub bus : Bool
  pub discovery_on : Bool
  pub uuid_filter_ok : Bool
  pub dev_path : List ℕ
  pub peer_svc_path : List ℕ
  pub peer_tx_path : List ℕ
  pub peer_rx_path : List ℕ
  pub connected : Bool
  pub subscribed : Bool
  pub connect_inflight : Bool
  pub services_resolved : Bool
  pub discover_submitted : Bool
  pub next_connect_at_ms : ℕ
  pub candidates : List Candidate
  pub refresh_req : Bool
  pub last_refresh_ms : ℕ
  pub refresh_min_interval_ms : ℕ
  pub refresh_periodic_ms : ℕ
  pub notifying : Bool

-- `std::make_unique<Impl>()`
unfoldable pub new_impl : Impl
new_impl = record {
  bus = false;
  discovery_on = false;
  uuid_filter_ok = false;
  dev_path = [];
  peer_svc_path = [];
  peer_tx_path = [];
  peer_rx_path = [];
  connected = false;
  subscribed = false;
  connect_inflight = false;
  services_resolved = false;
  discover_submitted = false;
  next_connect_at_ms = 0;
  candidates = [];
  refresh_req = false;
  last_refresh_ms = 0;
  refresh_min_interval_ms = 2000;
  refresh_periodic_ms = 5000;
  notifying = false;
}

-- `attached` says whether `on_frame_` holds a callback.
pub record Bluez : Type 0 where
  pub cfg : Config
  pub attached : Bool
  pub mtu : ℕ
  pub running : Bool
  pub impl : Option Impl

abbrev pub or_made : Option Impl → Impl
unfolding new_impl
or_made none = new_impl
or_made (some i) = i

abbrev pub after_role : Bluez → Impl × Bool → Bluez × Bool
after_role t (i, ok) =
    if ok
    then (record t { running = true; impl = some i }, true)
    else (record t { impl = none }, false)

-- `start_role` is what start_central or start_peripheral does to Impl, and `mtu` the frame size of the
-- settings or of the environment.
unfoldable pub start : (Impl → Impl × Bool) → ℕ → Bluez → Bluez × Bool
start start_role mtu t =
    if t.running
    then (t, true)
    else after_role (record t { attached = true; mtu = mtu }) (start_role (or_made t.impl))

abbrev pub no_bytes : List ℕ → Bool
no_bytes [] = true
no_bytes (b ∷ bs) = false

-- `send_role` is what send_central_impl or send_peripheral_impl answers.
unfoldable pub send : (List ℕ → Bool) → List ℕ → Bluez → Bool
send send_role f t = if not t.running then false else if no_bytes f then false else send_role f

-- With no Impl the role's stop is not called.
unfoldable pub stop : Bluez → Bluez
stop t = if t.running then record t { running = false; impl = none } else t

abbrev pub ready_as : Role → Option Impl → Bool
ready_as role none = false
ready_as central (some i) = i.connected && i.subscribed
ready_as peripheral (some i) = i.notifying

unfoldable pub link_ready : Bluez → Bool
link_ready t = ready_as t.cfg.role t.impl

-- Whether the bytes reach `on_frame_`.
unfoldable pub deliver_rx_bytes : List ℕ → Bluez → Bool
deliver_rx_bytes data_ t = not (no_bytes data_) && t.running && t.attached

-- `candidates` is a map by address.
unfoldable pub note : List ℕ → ℕ → ℕ → List Candidate → List Candidate
note addr rssi now [] = record { addr = addr; rssi = rssi; last_seen_ms = now } ∷ []
note addr rssi now (c ∷ cs) =
    if str_eq c.addr addr
    then record c { rssi = rssi; last_seen_ms = now } ∷ cs
    else c ∷ note addr rssi now cs

abbrev pub on_impl : (Impl → Impl) → Bluez → Bluez
on_impl f t = record t { impl = elim t.impl [ none ↦ none | some i ↦ some (f i) ] }

abbrev pub note_in : List ℕ → ℕ → ℕ → Impl → Impl
note_in addr rssi now i = record i { candidates = note addr rssi now i.candidates }

unfoldable pub note_candidate : List ℕ → ℕ → ℕ → Bluez → Bluez
note_candidate addr rssi now t = on_impl (note_in addr rssi now) t

unfoldable pub request_candidate_refresh : Bluez → Bluez
request_candidate_refresh t = on_impl (λ i. record i { refresh_req = true }) t

abbrev pub ttl_ms : ℕ
ttl_ms = 120000

-- A difference of two `uint64_t`.
abbrev pub elapsed : ℕ → ℕ → ℕ
elapsed now then_ = (now + 2 ^ 64 - then_) % 2 ^ 64

abbrev pub fresh : ℕ → List Candidate → List Peer
fresh now [] = []
fresh now (c ∷ cs) =
    if leb (elapsed now c.last_seen_ms) ttl_ms
    then record { addr = c.addr; rssi = c.rssi } ∷ fresh now cs
    else fresh now cs

-- `a.rssi > b.rssi` on signed numbers of 16 bits.
abbrev pub stronger : Peer → Peer → Bool
stronger a b = ltb ((b.rssi + 2 ^ 15) % 2 ^ 16) ((a.rssi + 2 ^ 15) % 2 ^ 16)

unfoldable pub insert_peer : Peer → List Peer → List Peer
insert_peer p [] = p ∷ []
insert_peer p (q ∷ qs) = if stronger q p then q ∷ insert_peer p qs else p ∷ q ∷ qs

-- std::sort; equal signals keep an order that the source leaves open.
abbrev pub sorted : List Peer → List Peer
sorted [] = []
sorted (p ∷ ps) = insert_peer p (sorted ps)

abbrev no_candidates : List Candidate → Bool
no_candidates [] = true
no_candidates (c ∷ cs) = false

abbrev pub needs_refresh : ℕ → Impl → Bool
needs_refresh now i =
    no_candidates i.candidates || ltb i.refresh_min_interval_ms (elapsed now i.last_refresh_ms)

abbrev peers_of : Bluez → ℕ → Option Impl → Bluez × List Peer
peers_of t now none = (t, [])
peers_of t now (some i) = if not i.bus then (t, []) else (
  record t { impl = some (record i { refresh_req = needs_refresh now i || i.refresh_req }) },
  sorted (fresh now i.candidates),
)

unfoldable pub list_peers : ℕ → Bluez → Bluez × List Peer
list_peers now t = peers_of t now t.impl
