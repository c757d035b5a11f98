-- ===== src/Bluez/Central/Connecting.antt =====
-- From a central without a device to a call of Connect.
use bitchat_clone.Base.{ℕ, ◌≡◌, subst, ap, ◌∙◌, true, false, List, [], some, arith, leb}
use bitchat_clone.Dbus.{Called}
use bitchat_clone.Bluez.{Config, Impl, no_bytes, elapsed}
use bitchat_clone.Bluez.Central.{stop_discovery, central_connect}
use bitchat_clone.Bluez.Central.Scan.{Device, has_peer, whole_or_none, central_cold_scan}
use bitchat_clone.Bluez.Central.Pump.{
  Answers, forget_unconnected, scan_if_due, connect_if_due, subscribe_if_due, discovery_policy,
  refresh_if_due, central_pump,
}
use bitchat_clone.Bluez.Central.Scan.Taken.{
  Still, Still-trans, cold_scan-Still, refresh-Still, refresh-dev_path, first_peer, first_taken,
}

-- A connection to the device is tried.
pub record Waiting (dev : List ℕ) (i : Impl) : Type 0 where
  pub bus : i.bus ≡ true
  pub connected : i.connected ≡ false
  pub subscribed : i.subscribed ≡ false
  pub inflight : i.connect_inflight ≡ true
  pub device : i.dev_path ≡ dev

pub forget-Still : (i : Impl) → Still i (forget_unconnected i)
unfolding forget_unconnected
forget-Still i = ground arith

-- What the objects of a scan are.
taken_scan :
    (cfg : Config) (a : Answers) (found : List (List ℕ × Device)) (i : Impl)
    → has_peer cfg.peer_addr ≡ true
    → no_bytes (first_peer cfg found) ≡ false
    → whole_or_none cfg a.scan ≡ some found
    → leb i.refresh_min_interval_ms (elapsed a.scan_ms i.last_refresh_ms) ≡ true
    → i.bus ≡ true
    → i.dev_path ≡ []
    → (scan_if_due cfg a i).dev_path ≡ first_peer cfg found
unfolding scan_if_due central_cold_scan
taken_scan cfg a found i p e w due b d =
    ground
      (arith, first_taken cfg a.scan_ms found (record i { last_refresh_ms = a.scan_ms }) p e d, w)

pub scan-Still : (cfg : Config) (a : Answers) (i : Impl) → Still i (scan_if_due cfg a i)
unfolding scan_if_due
scan-Still cfg a i =
    ground
      (arith, cold_scan-Still cfg false a.scan_ms a.scan (record i { last_refresh_ms = a.scan_ms }))

connect-Waiting :
    (cfg : Config) (a : Answers) (i : Impl)
    → has_peer cfg.peer_addr ≡ true
    → no_bytes i.dev_path ≡ false
    → i.bus ≡ true
    → i.connected ≡ false
    → i.subscribed ≡ false
    → i.connect_inflight ≡ false
    → leb i.next_connect_at_ms a.connect_ms ≡ true
    → a.connect ≡ true
    → Waiting i.dev_path (connect_if_due cfg a i)
unfolding connect_if_due central_connect stop_discovery
connect-Waiting cfg a i p d b c s f n k = ground arith

subscribe-Waiting :
    (cfg : Config) (a : Answers) (dev : List ℕ) (i : Impl)
    → Waiting dev i
    → Waiting dev (subscribe_if_due cfg a i)
unfolding subscribe_if_due
subscribe-Waiting cfg a dev i h = ground arith

policy-Waiting :
    (called : Called) (dev : List ℕ) (i : Impl)
    → Waiting dev i
    → Waiting dev (discovery_policy called i)
unfolding discovery_policy stop_discovery
policy-Waiting called dev i h = ground arith

refresh-Waiting :
    (cfg : Config) (a : Answers) (dev : List ℕ) (i : Impl)
    → Waiting dev i
    → Waiting dev (refresh_if_due cfg a i)
refresh-Waiting cfg a dev i h = ground (arith, refresh-Still cfg a i, refresh-dev_path cfg a i)

taken_forgot :
    (cfg : Config) (a : Answers) (found : List (List ℕ × Device)) (i : Impl)
    → has_peer cfg.peer_addr ≡ true
    → no_bytes (first_peer cfg found) ≡ false
    → whole_or_none cfg a.scan ≡ some found
    → leb i.refresh_min_interval_ms (elapsed a.scan_ms i.last_refresh_ms) ≡ true
    → i.bus ≡ true
    → i.dev_path ≡ []
    → (scan_if_due cfg a (forget_unconnected i)).dev_path ≡ first_peer cfg found
unfolding forget_unconnected
taken_forgot cfg a found i p e w due b d =
    taken_scan cfg a found (forget_unconnected i) p e w (ground arith) (ground arith) (ground arith)

-- The first pump after a handover.
pub pump-Waiting :
    (cfg : Config) (a : Answers) (found : List (List ℕ × Device)) (i : Impl)
    → has_peer cfg.peer_addr ≡ true
    → no_bytes (first_peer cfg found) ≡ false
    → whole_or_none cfg a.scan ≡ some found
    → leb i.refresh_min_interval_ms (elapsed a.scan_ms i.last_refresh_ms) ≡ true
    → leb i.next_connect_at_ms a.connect_ms ≡ true
    → a.connect ≡ true
    → i.bus ≡ true
    → i.dev_path ≡ []
    → i.connected ≡ false
    → i.subscribed ≡ false
    → i.connect_inflight ≡ false
    → Waiting (first_peer cfg found) (central_pump cfg a i)
unfolding central_pump
pump-Waiting cfg a found i p e w due n k b d c s f =
    let forgot = forget_unconnected i in
    let scanned = scan_if_due cfg a forgot in
    let still = Still-trans i forgot scanned (forget-Still i) (scan-Still cfg a forgot) in
    let taken = taken_forgot cfg a found i p e w due b d in
    let connecting = connect_if_due cfg a scanned in
    let subscribing = subscribe_if_due cfg a connecting in
    let tried =
      connect-Waiting cfg a scanned p (ap no_bytes taken ∙ e) (still.bus ∙ b) (still.connected ∙ c)
        (still.subscribed ∙ s) (still.inflight ∙ f) (ap (λ at. leb at a.connect_ms) still.next ∙ n)
        k in
    let tried_first = subst (λ dev. Waiting dev connecting) taken tried in
    refresh-Waiting cfg a (first_peer cfg found) (discovery_policy a.start subscribing) (
      policy-Waiting a.start (first_peer cfg found) subscribing
        (subscribe-Waiting cfg a (first_peer cfg found) connecting tried_first))
