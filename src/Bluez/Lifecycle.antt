-- ===== src/Bluez/Lifecycle.antt =====
-- When the facade's link can be up.
use bitchat_clone.Base.{ℕ, ◌≡◌, Bool, true, false, List, [], ◌∷◌, Option, none, some, arith}
use bitchat_clone.Bluez.{
  Impl, Bluez, start, send, stop, link_ready, deliver_rx_bytes, note_candidate,
  request_candidate_refresh, list_peers, on_impl,
}

-- There is an Impl exactly while the transport runs.
abbrev has_impl : Option Impl → Bool
has_impl none = false
has_impl (some i) = true

abbrev pub IsConsistent : Bluez → Type 0
IsConsistent t = t.running ≡ has_impl t.impl

-- What can happen to the facade; `changes` is what the bus thread does to Impl.
pub data Call : Type 0 where
  starts : (Impl → Impl × Bool) → ℕ → Call
  stops : Call
  notes : List ℕ → ℕ → ℕ → Call
  refreshes : Call
  lists : ℕ → Call
  changes : (Impl → Impl) → Call

unfoldable pub step : Bluez → Call → Bluez
step t (starts role mtu) = (start role mtu t).0
step t stops = stop t
step t (notes addr rssi now) = note_candidate addr rssi now t
step t refreshes = request_candidate_refresh t
step t (lists now) = (list_peers now t).0
step t (changes f) = on_impl f t

unfoldable pub run : Bluez → List Call → Bluez
run t [] = t
run t (c ∷ cs) = run (step t c) cs

on_impl-IsConsistent : (f : Impl → Impl) (t : Bluez) → IsConsistent t → IsConsistent (on_impl f t)
on_impl-IsConsistent f t v = ground arith

start-IsConsistent :
    (role : Impl → Impl × Bool) (mtu : ℕ) (t : Bluez)
    → IsConsistent t
    → IsConsistent (start role mtu t).0
unfolding start
start-IsConsistent role mtu t v = ground arith

stop-IsConsistent : (t : Bluez) → IsConsistent t → IsConsistent (stop t)
unfolding stop
stop-IsConsistent t v = ground arith

list_peers-IsConsistent : (now : ℕ) (t : Bluez) → IsConsistent t → IsConsistent (list_peers now t).0
unfolding list_peers
list_peers-IsConsistent now t v = ground arith

step-IsConsistent : (t : Bluez) (c : Call) → IsConsistent t → IsConsistent (step t c)
unfolding step note_candidate request_candidate_refresh
step-IsConsistent t (starts role mtu) v = start-IsConsistent role mtu t v
step-IsConsistent t stops v = stop-IsConsistent t v
step-IsConsistent t (notes addr rssi now) v = on_impl-IsConsistent _ t v
step-IsConsistent t refreshes v = on_impl-IsConsistent _ t v
step-IsConsistent t (lists now) v = list_peers-IsConsistent now t v
step-IsConsistent t (changes f) v = on_impl-IsConsistent f t v

run-IsConsistent : (t : Bluez) (cs : List Call) → IsConsistent t → IsConsistent (run t cs)
unfolding run
run-IsConsistent t [] v = v
run-IsConsistent t (c ∷ cs) v = run-IsConsistent (step t c) cs (step-IsConsistent t c v)

ready_runs : (t : Bluez) → IsConsistent t → link_ready t ≡ true → t.running ≡ true
unfolding link_ready
ready_runs t v e = ground arith

-- After any calls and changes by the bus thread, in any order, from a transport whose `running_` and
-- Impl agree: when the link is ready, the transport runs.
pub link_ready_runs :
    (t : Bluez) (cs : List Call)
    → IsConsistent t
    → link_ready (run t cs) ≡ true
    → (run t cs).running ≡ true
link_ready_runs t cs v e = ready_runs (run t cs) (run-IsConsistent t cs v) e

idle :
    (s : Bluez) (send_role : List ℕ → Bool) (f : List ℕ)
    → IsConsistent s
    → (link_ready (stop s) ≡ false)
      × (send send_role f (stop s) ≡ false)
      × (deliver_rx_bytes f (stop s) ≡ false)
unfolding link_ready stop send deliver_rx_bytes
idle s send_role f v = (ground arith, ground arith, ground arith)

-- After `stop`, at the end of any calls from such a transport, the link is not ready, no frame is
-- sent, and no bytes are delivered.
pub stop_idle :
    (t : Bluez) (cs : List Call) (send_role : List ℕ → Bool) (f : List ℕ)
    → IsConsistent t
    → (link_ready (stop (run t cs)) ≡ false)
      × (send send_role f (stop (run t cs)) ≡ false)
      × (deliver_rx_bytes f (stop (run t cs)) ≡ false)
stop_idle t cs send_role f v = idle (run t cs) send_role f (run-IsConsistent t cs v)
