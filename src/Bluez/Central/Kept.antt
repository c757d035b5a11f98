-- ===== src/Bluez/Central/Kept.antt =====
-- The paths of the peer over the parts of `central_pump` that do not look for them.
use bitchat_clone.Base.{
  ℕ, ◌≡◌, refl, ◌∙◌, Bool, true, false, List, [], ◌∷◌, Option, none, some, arith,
}
use bitchat_clone.Dbus.{Objects}
use bitchat_clone.Bluez.{Config, Impl}
use bitchat_clone.Bluez.Central.{stop_discovery, central_connect}
use bitchat_clone.Bluez.Central.Gatt.{Paths, paths_of}
use bitchat_clone.Bluez.Central.Scan.{
  Device, on_found, all_found, update, whole_or_none, central_cold_scan,
}
use bitchat_clone.Bluez.Central.Pump.{
  Answers, scan_if_due, connect_if_due, subscribe_if_due, refresh_if_due,
}

-- No path is known yet.
abbrev pub no_paths : Paths
no_paths = record { svc = []; tx = []; rx = [] }

all_found-paths_of :
    (cfg : Config) (only : Bool) (now : ℕ) (found : List (List ℕ × Device)) (i : Impl)
    → paths_of (all_found cfg only now found i) ≡ paths_of i
unfolding all_found
all_found-paths_of cfg only now [] i = refl
all_found-paths_of cfg only now ((path, d) ∷ rest) i =
    all_found-paths_of cfg only now rest (on_found cfg only now path d i) ∙ one
  where
    one : paths_of (on_found cfg only now path d i) ≡ paths_of i
    one = ground arith

update-paths_of :
    (cfg : Config) (only : Bool) (now : ℕ) (found : Option (List (List ℕ × Device))) (i : Impl)
    → paths_of (update cfg only now found i) ≡ paths_of i
update-paths_of cfg only now none i = refl
update-paths_of cfg only now (some found) i = all_found-paths_of cfg only now found i

cold_scan-paths_of :
    (cfg : Config) (only : Bool) (now : ℕ) (reply : Option Objects) (i : Impl)
    → paths_of (central_cold_scan cfg only now reply i) ≡ paths_of i
unfolding central_cold_scan
cold_scan-paths_of cfg only now reply i =
    ground (arith, update-paths_of cfg only now (whole_or_none cfg reply) i)

pub scan-paths_of :
    (cfg : Config) (a : Answers) (i : Impl) → paths_of (scan_if_due cfg a i) ≡ paths_of i
unfolding scan_if_due
scan-paths_of cfg a i = ground (
  arith,
  cold_scan-paths_of cfg false a.scan_ms a.scan (record i { last_refresh_ms = a.scan_ms }),
)

pub connect-paths_of :
    (cfg : Config) (a : Answers) (i : Impl) → paths_of (connect_if_due cfg a i) ≡ paths_of i
unfolding connect_if_due central_connect stop_discovery
connect-paths_of cfg a i = ground arith

pub connect-connected :
    (cfg : Config) (a : Answers) (i : Impl) → (connect_if_due cfg a i).connected ≡ i.connected
unfolding connect_if_due central_connect stop_discovery
connect-connected cfg a i = ground arith

pub connect-bus : (cfg : Config) (a : Answers) (i : Impl) → (connect_if_due cfg a i).bus ≡ i.bus
unfolding connect_if_due central_connect stop_discovery
connect-bus cfg a i = ground arith

pub subscribe_unconnected :
    (cfg : Config) (a : Answers) (i : Impl) → i.connected ≡ false → subscribe_if_due cfg a i ≡ i
unfolding subscribe_if_due
subscribe_unconnected cfg a i c = ground arith

pub refresh-paths_of :
    (cfg : Config) (a : Answers) (i : Impl) → paths_of (refresh_if_due cfg a i) ≡ paths_of i
unfolding refresh_if_due
refresh-paths_of cfg a i =
    ground
      (arith, cold_scan-paths_of cfg true a.refresh_ms a.refresh (record i { refresh_req = false }))
