-- ===== src/Bluez/Central/Parted.antt =====
-- A central without a peer, as a handover to no address leaves it.
use bitchat_clone.Base.{
  ℕ, ◌≡◌, refl, ◌∙◌, ap, Bool, true, false, not, ◌&&◌, List, [], ◌∷◌, some, arith,
}
use bitchat_clone.Dbus.{Called, Props}
use bitchat_clone.Bluez.{central, Config, Impl, ready_as}
use bitchat_clone.Bluez.Central.Scan.{has_peer}
use bitchat_clone.Bluez.Central.Machine.{
  Machine, Event, added, removed, changed, replied_connect, pumped, handed, step, run,
}
use bitchat_clone.Bluez.Central.Alone.{
  is_alone, added-is_alone, removed-is_alone, changed-is_alone, pump-is_alone, handover-is_alone,
}

abbrev pub is_handed : Event → Bool
is_handed (handed addr now filter start) = true
is_handed _ = false

abbrev pub none_handed : List Event → Bool
none_handed [] = true
none_handed (e ∷ es) = not (is_handed e) && none_handed es

step-is_alone :
    (m : Machine) (e : Event)
    → is_handed e ≡ false
    → has_peer m.cfg.peer_addr ≡ false
    → is_alone m.impl ≡ true
    → is_alone (step m e).impl ≡ true
unfolding step
step-is_alone m (added now o whole) n p h = added-is_alone m.cfg now o whole m.impl p ∙ h
step-is_alone m (removed path) n p h = removed-is_alone path m.impl h
step-is_alone m (changed s) n p h = changed-is_alone m.cfg s m.impl p h
step-is_alone m (replied_connect now r) n p h = ground arith
step-is_alone m (pumped a) n p h = pump-is_alone m.cfg a m.impl p h
step-is_alone m (handed addr now filter start) n p h = ground arith

step-cfg : (m : Machine) (e : Event) → is_handed e ≡ false → (step m e).cfg ≡ m.cfg
unfolding step
step-cfg m (handed addr now filter start) n = ground arith
step-cfg m e n = refl

run-is_alone :
    (m : Machine) (es : List Event)
    → none_handed es ≡ true
    → has_peer m.cfg.peer_addr ≡ false
    → is_alone m.impl ≡ true
    → is_alone (run m es).impl ≡ true
unfolding run
run-is_alone m [] n p h = h
run-is_alone m (e ∷ es) n p h =
    run-is_alone (step m e) es (ground arith)
      (ap (λ (cfg : Config). has_peer cfg.peer_addr) (step-cfg m e (ground arith)) ∙ p)
      (step-is_alone m e (ground arith) p h)

handed-is_alone :
    (m : Machine) (now : ℕ) (filter : Props → Called) (start : Called)
    → m.impl.bus ≡ true
    → (has_peer (step m (handed [] now filter start)).cfg.peer_addr ≡ false)
      × (is_alone (step m (handed [] now filter start)).impl ≡ true)
unfolding step
handed-is_alone m now filter start b =
    (ground arith, ground (arith, handover-is_alone m.cfg [] now filter start m.impl))

alone_not_ready :
    (i : Impl)
    → is_alone i ≡ true
    → (i.dev_path ≡ []) × (i.connect_inflight ≡ false) × (ready_as central (some i) ≡ false)
alone_not_ready i h = (ground arith, ground arith, ground arith)

-- Once the daemon disconnects, by a handover to no address on a bus that is open, the central stays
-- without a device, no connection is tried, and the link is not ready, whatever signals, replies and
-- pumps follow, until there is another handover.
pub disconnect_stays :
    (m : Machine) (now : ℕ) (filter : Props → Called) (start : Called) (es : List Event)
    → m.impl.bus ≡ true
    → none_handed es ≡ true
    → ((run (step m (handed [] now filter start)) es).impl.dev_path ≡ [])
      × ((run (step m (handed [] now filter start)) es).impl.connect_inflight ≡ false)
      × (ready_as central (some (run (step m (handed [] now filter start)) es).impl) ≡ false)
disconnect_stays m now filter start es b n =
    let (p, h) = handed-is_alone m now filter start b in
    alone_not_ready (run (step m (handed [] now filter start)) es).impl
      (run-is_alone (step m (handed [] now filter start)) es n p h)
