-- ===== src/Bluez/Central/Scan/Taken.antt =====
-- Which device a scan takes, and what it leaves alone.
use bitchat_clone.Base.{
  ℕ, ◌≡◌, refl, ap, ◌∙◌, Bool, true, false, List, [], ◌∷◌, Option, none, some, if◌then◌else◌, arith,
  Bool-cases, inl, inr,
}
use bitchat_clone.Dbus.{Objects}
use bitchat_clone.Bluez.{Config, Impl, no_bytes}
use bitchat_clone.Bluez.Central.Scan.{
  Device, is_peer, has_peer, on_found, all_found, update, whole_or_none, central_cold_scan,
}
use bitchat_clone.Bluez.Central.Pump.{Answers, refresh_if_due}

-- The bus and the flags are as before.
pub record Still (i j : Impl) : Type 0 where
  pub bus : j.bus ≡ i.bus
  pub connected : j.connected ≡ i.connected
  pub subscribed : j.subscribed ≡ i.subscribed
  pub inflight : j.connect_inflight ≡ i.connect_inflight
  pub next : j.next_connect_at_ms ≡ i.next_connect_at_ms

pub Still-trans : (i j k : Impl) → Still i j → Still j k → Still i k
Still-trans i j k h g = ground arith

all_found-Still :
    (cfg : Config) (only : Bool) (now : ℕ) (found : List (List ℕ × Device)) (i : Impl)
    → Still i (all_found cfg only now found i)
unfolding all_found
all_found-Still cfg only now [] i = ground arith
all_found-Still cfg only now ((path, d) ∷ rest) i =
    Still-trans i (on_found cfg only now path d i) _ one
      (all_found-Still cfg only now rest (on_found cfg only now path d i))
  where
    one : Still i (on_found cfg only now path d i)
    one = ground arith

update-Still :
    (cfg : Config) (only : Bool) (now : ℕ) (found : Option (List (List ℕ × Device))) (i : Impl)
    → Still i (update cfg only now found i)
update-Still cfg only now none i = ground arith
update-Still cfg only now (some found) i = all_found-Still cfg only now found i

pub cold_scan-Still :
    (cfg : Config) (only : Bool) (now : ℕ) (reply : Option Objects) (i : Impl)
    → Still i (central_cold_scan cfg only now reply i)
unfolding central_cold_scan
cold_scan-Still cfg only now reply i =
    ground (arith, update-Still cfg only now (whole_or_none cfg reply) i)

pub refresh-Still : (cfg : Config) (a : Answers) (i : Impl) → Still i (refresh_if_due cfg a i)
unfolding refresh_if_due
refresh-Still cfg a i =
    ground
      (arith, cold_scan-Still cfg true a.refresh_ms a.refresh (record i { refresh_req = false }))

-- A refresh takes no device.
refresh_found-dev_path :
    (cfg : Config) (now : ℕ) (found : List (List ℕ × Device)) (i : Impl)
    → (all_found cfg true now found i).dev_path ≡ i.dev_path
unfolding all_found
refresh_found-dev_path cfg now [] i = refl
refresh_found-dev_path cfg now ((path, d) ∷ rest) i =
    refresh_found-dev_path cfg now rest (on_found cfg true now path d i) ∙ one
  where
    one : (on_found cfg true now path d i).dev_path ≡ i.dev_path
    one = ground arith

refresh_update-dev_path :
    (cfg : Config) (now : ℕ) (found : Option (List (List ℕ × Device))) (i : Impl)
    → (update cfg true now found i).dev_path ≡ i.dev_path
refresh_update-dev_path cfg now none i = refl
refresh_update-dev_path cfg now (some found) i = refresh_found-dev_path cfg now found i

pub refresh-dev_path :
    (cfg : Config) (a : Answers) (i : Impl) → (refresh_if_due cfg a i).dev_path ≡ i.dev_path
unfolding refresh_if_due central_cold_scan
refresh-dev_path cfg a i = ground (
  arith,
  refresh_update-dev_path cfg a.refresh_ms (whole_or_none cfg a.refresh)
      (record i { refresh_req = false }),
)

-- The path of the first device that is the peer; empty if there is none.
abbrev pub first_peer : Config → List (List ℕ × Device) → List ℕ
first_peer cfg [] = []
first_peer cfg ((path, d) ∷ rest) = if is_peer cfg path d then path else first_peer cfg rest

kept_one :
    (cfg : Config) (now : ℕ) (path : List ℕ) (d : Device) (i : Impl)
    → no_bytes i.dev_path ≡ false
    → (on_found cfg false now path d i).dev_path ≡ i.dev_path
kept_one cfg now path d i e = ground arith

-- A device that is there stays.
pub kept :
    (cfg : Config) (now : ℕ) (found : List (List ℕ × Device)) (i : Impl)
    → no_bytes i.dev_path ≡ false
    → (all_found cfg false now found i).dev_path ≡ i.dev_path
unfolding all_found
kept cfg now [] i e = refl
kept cfg now ((path, d) ∷ rest) i e =
    let same = kept_one cfg now path d i e in
    kept cfg now rest (on_found cfg false now path d i) (ap no_bytes same ∙ e) ∙ same

pub taken_one :
    (cfg : Config) (now : ℕ) (path : List ℕ) (d : Device) (i : Impl)
    → has_peer cfg.peer_addr ≡ true
    → i.dev_path ≡ []
    → (on_found cfg false now path d i).dev_path ≡ (if is_peer cfg path d then path else [])
taken_one cfg now path d i p e = ground arith

pub first_taken :
    (cfg : Config) (now : ℕ) (found : List (List ℕ × Device)) (i : Impl)
    → has_peer cfg.peer_addr ≡ true
    → no_bytes (first_peer cfg found) ≡ false
    → i.dev_path ≡ []
    → (all_found cfg false now found i).dev_path ≡ first_peer cfg found
unfolding all_found
first_taken cfg now [] i p e d = ground arith
first_taken cfg now ((path, dv) ∷ rest) i p e d =
    let next = on_found cfg false now path dv i in
    let one = taken_one cfg now path dv i p d in
    elim (Bool-cases (is_peer cfg path dv)) [
      | inl t ↦ ground (arith, kept cfg now rest next, one)
      | inr t ↦ ground (arith, first_taken cfg now rest next p, one)
    ]
