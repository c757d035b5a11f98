-- ===== src/Bluez/Central/Reach.antt =====
-- A handover brings the link up, when the bus answers.
use bitchat_clone.Base.{ℕ, ◌+◌, ◌≡◌, ap, ◌∙◌, true, false, List, [], ◌∷◌, none, some, arith, leb}
use bitchat_clone.Dbus.{Called, replied, bad_message, refused, Props, Objects}
use bitchat_clone.Bluez.{central, Config, Impl, no_bytes, ready_as, elapsed}
use bitchat_clone.Bluez.Central.{start_discovery, stop_discovery, central_set_discovery_filter}
use bitchat_clone.Bluez.Central.Gatt.Parts.{objects_readable, objects_parts, all_parts}
use bitchat_clone.Bluez.Central.Scan.{Device, has_peer, whole_or_none}
use bitchat_clone.Bluez.Central.Pump.{Answers, central_pump, handover, let_go, target}
use bitchat_clone.Bluez.Central.Machine.{
  Machine, Event, pumped, handed, replied_connect, on_reply, hand, step, run,
}
use bitchat_clone.Bluez.Central.Scan.Taken.{first_peer}
use bitchat_clone.Bluez.Central.Connecting.{Waiting, pump-Waiting}
use bitchat_clone.Bluez.Central.Subscribing.{reply-Connected, pump-ready}

-- What a handover leaves.
pub record Fresh (now min_ms : ℕ) (i : Impl) : Type 0 where
  pub bus : i.bus ≡ true
  pub device : i.dev_path ≡ []
  pub connected : i.connected ≡ false
  pub subscribed : i.subscribed ≡ false
  pub inflight : i.connect_inflight ≡ false
  pub next : i.next_connect_at_ms ≡ now + 300
  pub refreshed : i.last_refresh_ms ≡ 0
  pub interval : i.refresh_min_interval_ms ≡ min_ms

start-Fresh :
    (called : Called) (now min_ms : ℕ) (i : Impl)
    → Fresh now min_ms i
    → Fresh now min_ms (start_discovery called i).0
unfolding start_discovery
start-Fresh replied now min_ms i h = ground arith
start-Fresh bad_message now min_ms i h = ground arith
start-Fresh (refused name message) now min_ms i h = ground arith

filtered-Fresh :
    (call : Props → Called) (cfg : Config) (now : ℕ) (i : Impl)
    → i.bus ≡ true
    → Fresh now i.refresh_min_interval_ms (central_set_discovery_filter call cfg (let_go now i)).0
unfolding central_set_discovery_filter let_go stop_discovery
filtered-Fresh call cfg now i b = ground arith

pub handover-Fresh :
    (cfg : Config) (addr : List ℕ) (now : ℕ) (filter : Props → Called) (start : Called) (i : Impl)
    → i.bus ≡ true
    → Fresh now i.refresh_min_interval_ms (handover cfg addr now filter start i)
unfolding handover
handover-Fresh cfg addr now filter start i b =
    start-Fresh start now i.refresh_min_interval_ms _
      (filtered-Fresh filter (target addr cfg) now i b)

hand_open :
    (m : Machine) (addr : List ℕ) (now : ℕ) (filter : Props → Called) (start : Called)
    → m.impl.bus ≡ true
    → hand addr now filter start m
      ≡ record { cfg = target addr m.cfg; impl = handover m.cfg addr now filter start m.impl }
hand_open m addr now filter start b = ground arith

pub first_pump :
    (cfg : Config) (now : ℕ) (a : Answers) (found : List (List ℕ × Device)) (min_ms : ℕ) (i : Impl)
    → Fresh now min_ms i
    → has_peer cfg.peer_addr ≡ true
    → whole_or_none cfg a.scan ≡ some found
    → no_bytes (first_peer cfg found) ≡ false
    → leb min_ms (elapsed a.scan_ms 0) ≡ true
    → leb (now + 300) a.connect_ms ≡ true
    → a.connect ≡ true
    → Waiting (first_peer cfg found) (central_pump cfg a i)
first_pump cfg now a found min_ms i h p w e due n k =
    pump-Waiting cfg a found i p e w (ground arith) (ground arith) k h.bus h.device h.connected
      h.subscribed h.inflight

-- The handover, a pump, a reply that is no error, and a second pump.
abbrev pub handed_up : List ℕ → ℕ → ℕ → (Props → Called) → Called → Answers → Answers → List Event
handed_up addr now now' filter start a1 a2 =
    handed addr now filter start ∷ pumped a1 ∷ replied_connect now' none ∷ pumped a2 ∷ []

pub run-handed_up :
    (m : Machine) (addr : List ℕ) (now now' : ℕ) (filter : Props → Called) (start : Called)
    (a1 a2 : Answers)
    → m.impl.bus ≡ true
    → (run m (handed_up addr now now' filter start a1 a2)).impl
      ≡ central_pump (target addr m.cfg) a2 (
          on_reply now' none
            (central_pump (target addr m.cfg) a1 (handover m.cfg addr now filter start m.impl)))
unfolding run step
run-handed_up m addr now now' filter start a1 a2 b =
    ap (λ (j : Machine). central_pump j.cfg a2 (on_reply now' none (central_pump j.cfg a1 j.impl)))
      (hand_open m addr now filter start b)

-- On a bus that is open, a handover to an address, a pump, a reply of Connect that is no error and
-- a second pump make the link ready, if the first pump comes when the scan and the connection are due,
-- its scan shows the peer, and the call of Connect is submitted, and if in the second pump the
-- objects under the device, with readable UUIDs, have the service and both characteristics, and
-- StartNotify is answered. The other answers do not matter.
pub handover_reaches :
    (m : Machine) (addr : List ℕ) (now now' : ℕ) (filter : Props → Called) (start : Called)
    (a1 a2 : Answers) (found : List (List ℕ × Device)) (os : Objects)
    → m.impl.bus ≡ true
    → no_bytes addr ≡ false
    → whole_or_none (target addr m.cfg) a1.scan ≡ some found
    → no_bytes (first_peer (target addr m.cfg) found) ≡ false
    → leb m.impl.refresh_min_interval_ms (elapsed a1.scan_ms 0) ≡ true
    → leb (now + 300) a1.connect_ms ≡ true
    → a1.connect ≡ true
    → a2.gatt ≡ some os
    → objects_readable os.list ≡ true
    → all_parts (objects_parts (target addr m.cfg) (first_peer (target addr m.cfg) found) os.list)
      ≡ true
    → a2.notify ≡ replied
    → ready_as central (
        some
          (run m (
            handed addr now filter start
            ∷ pumped a1
            ∷ replied_connect now' none
            ∷ pumped a2
            ∷ [])).impl)
      ≡ true
handover_reaches m addr now now' filter start a1 a2 found os b p w e due n k g r parts ok =
    let cfg = target addr m.cfg in
    let fresh = handover-Fresh m.cfg addr now filter start m.impl b in
    let waiting =
      first_pump cfg now a1 found m.impl.refresh_min_interval_ms
        (handover m.cfg addr now filter start m.impl) fresh (ground arith) w e due n k in
    ap (λ j. ready_as central (some j)) (run-handed_up m addr now now' filter start a1 a2 b)
    ∙ pump-ready cfg a2 os (first_peer cfg found) _
        (reply-Connected now' (first_peer cfg found) _ waiting) e g r parts ok
