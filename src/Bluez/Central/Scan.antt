-- ===== src/Bluez/Central/Scan.antt =====
-- The devices that the bus knows: the reading of Device1 that `bluez_on_iface_added` and
-- `central_cold_scan` share, and `central_cold_scan` itself.
pub mod Taken
pub mod Expected
pub mod First
use bitchat_clone.Base.{
  ℕ, Bool, true, false, not, ◌&&◌, ◌||◌, List, [], ◌∷◌, ◌++◌, Option, none, some, if◌then◌else◌,
}
use bitchat_clone.Text.{codes, str_eq, starts_with}
use bitchat_clone.Dbus.{
  Variant, read_var_s, read_var_i16, var_as_has_uuid, Props, Iface, Object, Objects, mac_eq,
  path_mac_eq,
}
use bitchat_clone.Bluez.{Config, Impl, no_bytes, note_in}

-- LocalDev without its path. `rssi` is 0 until it is read.
pub record Device : Type 0 where
  pub addr : List ℕ
  pub rssi : ℕ
  pub have_rssi : Bool
  pub svc_hit : Bool

abbrev pub no_device : Device
no_device = record { addr = []; rssi = 0; have_rssi = false; svc_hit = false }

-- `none` is a read that fails.
infixl 5 ◌>>=◌
abbrev pub ◌>>=◌ {ℓ κ} : {A : Type ℓ} {B : Type κ} → Option A → (A → Option B) → Option B
none >>= f = none
some a >>= f = f a

abbrev pub read_prop : List ℕ → List ℕ → Variant → Device → Option Device
read_prop svc key v d =
    if str_eq key (codes "UUIDs")
    then var_as_has_uuid svc v >>= (λ hit. some (record d { svc_hit = d.svc_hit || hit }))
    else if str_eq key (codes "Address")
    then read_var_s v >>= (λ a. some (record d { addr = a }))
    else if str_eq key (codes "RSSI")
    then read_var_i16 v >>= (λ n. some (record d { rssi = n; have_rssi = true }))
    else some d

abbrev pub read_props : List ℕ → Props → Device → Option Device
read_props svc [] d = some d
read_props svc ((key, v) ∷ rest) d = read_prop svc key v d >>= read_props svc rest

abbrev pub read_ifaces : List ℕ → List Iface → Device → Option Device
read_ifaces svc [] d = some d
read_ifaces svc (f ∷ fs) d =
    (if str_eq f.name (codes "org.bluez.Device1") then read_props svc f.props d else some d)
    >>= read_ifaces svc fs

abbrev pub dev_prefix : Config → List ℕ
dev_prefix cfg = codes "/org/bluez/" ++ (cfg.adapter ++ codes "/dev_")

abbrev pub and_found : List ℕ → Device → List (List ℕ × Device) → Option (List (List ℕ × Device))
and_found path d rest = some ((path, d) ∷ rest)

-- The devices of the adapter, in order.
unfoldable pub read_objects : Config → List Object → Option (List (List ℕ × Device))
read_objects cfg [] = some []
read_objects cfg (o ∷ os) =
    let rest = read_objects cfg os in
    if starts_with (dev_prefix cfg) o.path
    then read_ifaces cfg.svc_uuid o.ifaces no_device >>= (λ d. rest >>= and_found o.path d)
    else rest

abbrev pub has_peer : Option (List ℕ) → Bool
has_peer none = false
has_peer (some addr) = not (no_bytes addr)

-- `*cfg_.peer_addr`, read only where there is one.
abbrev pub peer_of : Option (List ℕ) → List ℕ
peer_of none = []
peer_of (some addr) = addr

-- The device has the peer's address, or its path has.
abbrev pub is_peer : Config → List ℕ → Device → Bool
is_peer cfg path d =
    (not (no_bytes d.addr) && mac_eq d.addr (peer_of cfg.peer_addr))
    || path_mac_eq path (peer_of cfg.peer_addr)

abbrev pub candidate_ok : Config → List ℕ → Device → Bool
candidate_ok cfg path d = if has_peer cfg.peer_addr then is_peer cfg path d else d.svc_hit

abbrev pub noted : ℕ → Device → Impl → Impl
noted now d i =
    if no_bytes d.addr then i else note_in d.addr (if d.have_rssi then d.rssi else 0) now i

-- `adopted` only repeats that `dev_path` is no longer empty.
abbrev pub adopt : Config → Bool → List ℕ → Impl → Impl
adopt cfg refresh_only path i =
    if has_peer cfg.peer_addr && not refresh_only && no_bytes i.dev_path
    then record i { dev_path = path }
    else i

-- One round of the last loop.
abbrev pub on_found : Config → Bool → ℕ → List ℕ → Device → Impl → Impl
on_found cfg refresh_only now path d i =
    if candidate_ok cfg path d then adopt cfg refresh_only path (noted now d i) else i

unfoldable pub all_found : Config → Bool → ℕ → List (List ℕ × Device) → Impl → Impl
all_found cfg refresh_only now [] i = i
all_found cfg refresh_only now ((path, d) ∷ rest) i =
    all_found cfg refresh_only now rest (on_found cfg refresh_only now path d i)

abbrev pub update : Config → Bool → ℕ → Option (List (List ℕ × Device)) → Impl → Impl
update cfg refresh_only now none i = i
update cfg refresh_only now (some found) i = all_found cfg refresh_only now found i

unfoldable pub whole_or_none : Config → Option Objects → Option (List (List ℕ × Device))
whole_or_none cfg none = none
whole_or_none cfg (some os) = if os.whole then read_objects cfg os.list else none

-- The reply of GetManagedObjects is `none` for an error. The pump does not look at the result.
unfoldable pub central_cold_scan : Config → Bool → ℕ → Option Objects → Impl → Impl
central_cold_scan cfg refresh_only now reply i =
    if not i.bus then i else update cfg refresh_only now (whole_or_none cfg reply) i
