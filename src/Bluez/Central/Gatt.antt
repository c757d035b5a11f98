-- ===== src/Bluez/Central/Gatt.antt =====
-- `central_find_gatt_paths`: the service and the two characteristics of the peer among the objects of
-- the bus. After a read that fails, the calls that leave the containers fail too, so the walk ends.
pub mod Parts
pub mod Complete
pub mod Exact
use bitchat_clone.Base.{
  ℕ, Bool, true, false, not, ◌&&◌, ◌||◌, List, [], ◌∷◌, ◌++◌, Option, none, some, if◌then◌else◌,
}
use bitchat_clone.Text.{codes, str_eq, starts_with}
use bitchat_clone.Dbus.{Variant, read_var_s, Props, Iface, Object, Objects, ieq}
use bitchat_clone.Bluez.{Config, Impl, no_bytes}

pub record Paths : Type 0 where
  pub svc : List ℕ
  pub tx : List ℕ
  pub rx : List ℕ

abbrev pub gatt_paths_ready : Paths → Bool
gatt_paths_ready g = not (no_bytes g.svc) && not (no_bytes g.tx) && not (no_bytes g.rx)

-- The paths so far, and whether the walk goes on: not after the last one was found.
abbrev pub Walk : Type 0
Walk = Paths × Bool

abbrev pub found : Paths → Walk
found g = (g, not (gatt_paths_ready g))

-- Whether a walk goes on, and with what.
abbrev pub and_then : Walk → (Paths → Walk) → Walk
and_then (g, true) next = next g
and_then (g, false) next = (g, false)

abbrev pub match_svc : List ℕ → List ℕ → Option (List ℕ) → Paths → Walk
match_svc want path none g = (g, false)
match_svc want path (some u) g = if ieq u want then found (record g { svc = path }) else (g, true)

-- The properties of a GattService1.
abbrev pub service_props : List ℕ → List ℕ → Props → Paths → Walk
service_props want path [] g = (g, true)
service_props want path ((key, v) ∷ rest) g =
    if str_eq key (codes "UUID")
    then and_then (match_svc want path (read_var_s v) g) (service_props want path rest)
    else service_props want path rest g

-- The UUID among the properties of a GattCharacteristic1, and whether all could be read.
abbrev pub char_props : Props → List ℕ → List ℕ × Bool
char_props [] uuid = (uuid, true)
char_props ((key, v) ∷ rest) uuid =
    if str_eq key (codes "UUID")
    then elim (read_var_s v) [ none ↦ (uuid, false) | some u ↦ char_props rest u ]
    else char_props rest uuid

abbrev pub match_char : Config → List ℕ → List ℕ → Paths → Walk
match_char cfg path uuid g =
    if no_bytes uuid
    then (g, true)
    else if ieq uuid cfg.tx_uuid
    then found (record g { tx = path })
    else if ieq uuid cfg.rx_uuid
    then found (record g { rx = path })
    else (g, true)

abbrev pub stop_unless : Bool → Walk → Walk
stop_unless ok (g, go) = (g, go && ok)

abbrev pub on_char : Config → List ℕ → List ℕ × Bool → Paths → Walk
on_char cfg path (uuid, ok) g = stop_unless ok (match_char cfg path uuid g)

unfoldable pub on_iface : Config → List ℕ → Iface → Paths → Walk
on_iface cfg path f g =
    if str_eq f.name (codes "org.bluez.GattService1")
    then service_props cfg.svc_uuid path f.props g
    else if str_eq f.name (codes "org.bluez.GattCharacteristic1")
    then on_char cfg path (char_props f.props []) g
    else (g, true)

unfoldable pub walk_ifaces : Config → List ℕ → List Iface → Paths → Walk
walk_ifaces cfg path [] g = (g, true)
walk_ifaces cfg path (f ∷ fs) g = and_then (on_iface cfg path f g) (walk_ifaces cfg path fs)

-- Only the objects under the device.
unfoldable pub walk_objects : Config → List ℕ → List Object → Paths → Walk
walk_objects cfg dev [] g = (g, true)
walk_objects cfg dev (o ∷ os) g =
    if starts_with (dev ++ codes "/") o.path
    then and_then (walk_ifaces cfg o.path o.ifaces g) (walk_objects cfg dev os)
    else walk_objects cfg dev os g

abbrev pub paths_of : Impl → Paths
paths_of i = record { svc = i.peer_svc_path; tx = i.peer_tx_path; rx = i.peer_rx_path }

abbrev pub with_paths : Impl → Paths → Impl
with_paths i g = record i { peer_svc_path = g.svc; peer_tx_path = g.tx; peer_rx_path = g.rx }

abbrev pub find_in : Config → Option Objects → Impl → Impl × Bool
find_in cfg none i = (i, false)
find_in cfg (some os) i =
    let (g, _) = walk_objects cfg i.dev_path os.list (paths_of i) in
    (with_paths i g, gatt_paths_ready g)

-- The argument is the answer to GetManagedObjects, `none` if it is an error.
unfoldable pub central_find_gatt_paths : Config → Option Objects → Impl → Impl × Bool
central_find_gatt_paths cfg reply i =
    if not i.bus || no_bytes i.dev_path then (i, false) else find_in cfg reply i
