-- ===== src/Bluez/Runs.antt =====
-- A transport that is started and stopped, and its candidates.
use bitchat_clone.Base.{Bool, some, ◌≡◌, refl, true, false, List, [], ◌∷◌, none, arith}
use bitchat_clone.Text.{codes, str_eq}
use bitchat_clone.Bluez.{
  peripheral, Peer, Impl, Bluez, list_peers, new_impl, start, send, stop, link_ready,
  deliver_rx_bytes, note, insert_peer, fresh, sorted,
}
use bitchat_clone.Bluez.Peers.{Descends, passing, list_peers_sorted}
use bitchat_clone.Bluez.Lifecycle.{Call, starts, changes, step, run, stop_idle}

abbrev off : Bluez
off = record {
  cfg = record {
    role = peripheral;
    adapter = codes "hci0";
    svc_uuid = [];
    tx_uuid = [];
    rx_uuid = [];
    peer_addr = none;
  };
  attached = false;
  mtu = 100;
  running = false;
  impl = none;
}

abbrev calls : List Call
calls = starts (λ i. (i, true)) 100 ∷ changes (λ i. record i { notifying = true }) ∷ []

ready_after : link_ready (run off calls) ≡ true
unfolding link_ready run step start new_impl
ready_after = refl

stop_idle_example :
    (link_ready (stop (run off calls)) ≡ false)
    × (send (λ f. true) (1 ∷ []) (stop (run off calls)) ≡ false)
    × (deliver_rx_bytes (1 ∷ []) (stop (run off calls)) ≡ false)
stop_idle_example = stop_idle off calls (λ f. true) (1 ∷ []) refl

-- Seen again, and one that is too old: -60 dBm is 65476.
sorted-fresh :
    sorted (
      fresh 200000 (
        note (codes "B") 65476 190000 (
          record { addr = codes "A"; rssi = 65400; last_seen_ms = 1 }
          ∷ record { addr = codes "C"; rssi = 65436; last_seen_ms = 150000 }
          ∷ [])))
    ≡ record { addr = codes "B"; rssi = 65476 } ∷ record { addr = codes "C"; rssi = 65436 } ∷ []
unfolding note insert_peer
sorted-fresh = refl

abbrev seen : Impl
unfolding new_impl
seen = record new_impl {
  bus = true;
  candidates =
      record { addr = codes "A"; rssi = 65400; last_seen_ms = 1 }
      ∷ record { addr = codes "C"; rssi = 65436; last_seen_ms = 150000 }
      ∷ record { addr = codes "B"; rssi = 65476; last_seen_ms = 190000 }
      ∷ [];
}

abbrev watching : Bluez
watching = record off { running = true; impl = some seen }

-- Whether a peer has the address A, which was seen too long ago.
abbrev is_a : Peer → Bool
is_a p = str_eq p.addr (codes "A")

list_peers_sorted_example :
    Descends (list_peers 200000 watching).1 × (passing is_a (list_peers 200000 watching).1 ≡ 0)
unfolding seen
list_peers_sorted_example =
    list_peers_sorted 200000 watching seen is_a refl refl (omega arith) (omega arith)
