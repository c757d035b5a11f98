-- ===== src/Bluez/Connects/Runs.antt =====
-- A run from the handover to a frame, and a notification that is not heard.
use bitchat_clone.Base.{ℕ, List, ◌≡◌, refl, sym, true, [], none, ◌∷◌, ◌++◌, some, if◌then◌else◌}
use bitchat_clone.Text.{codes, str_eq, str_eq-eq, to_upper, to_lower}
use bitchat_clone.Dbus.{Called, replied, refused, bytes, Props, Changed, Hears}
use bitchat_clone.Bluez.{central, peripheral, Impl, new_impl, ready_as}
use bitchat_clone.Bluez.Central.{central_write, write_options}
use bitchat_clone.Bluez.Central.Signals.{heard}
use bitchat_clone.Bluez.Central.Pump.{Answers, target}
use bitchat_clone.Bluez.Central.Machine.{Machine, run}
use bitchat_clone.Bluez.Central.Reach.{handed_up}
use bitchat_clone.Bluez.Central.Runs.{cfg, addr, answers, found, scan_finds, is_first}
use bitchat_clone.Bluez.Peripheral.{
  Exports, start_peripheral, rx_path, tx_path, characteristic, emit_value_props_changed_ay,
  rx_WriteValue,
}
use bitchat_clone.Bluez.Peripheral.Relay.{relayed}
use bitchat_clone.Bluez.Peripheral.Tables.{handler_at}
use bitchat_clone.Bluez.Mirror.{mirror, SameIds}
use bitchat_clone.Bluez.Mirror.Runs.{peer_cfg, same_ids, at, adapter, battery}
use bitchat_clone.Bluez.Connects.{Answered, notifying_peer, written, Routes, handover_connects}

abbrev second : Answers
second = record answers {
  gatt = some (record { list = adapter ++ (mirror peer_cfg at ++ battery); whole = true });
}

abbrev exports : Exports
exports = record {
  opened = true;
  object_manager = true;
  service = true;
  tx = true;
  rx = true;
  application = true;
  advertisement_object = true;
  advertisement = true;
}

abbrev idle : Machine
unfolding new_impl
idle = record { cfg = cfg; impl = record new_impl { bus = true } }

abbrev linked : Machine
linked = run idle (handed_up addr 1000 6000 (λ props. replied) replied answers second)

abbrev peer : Impl
unfolding new_impl
peer = notifying_peer exports new_impl

abbrev routed : List ℕ → List ℕ → Props → Called
routed path f opts =
    if str_eq path (at rx_path)
    then written (handler_at rx_path characteristic (codes "WriteValue")) [] f opts
    else refused (codes "org.freedesktop.DBus.Error.UnknownObject") []

abbrev by_path : Hears
by_path r path = str_eq r.path path

routed-Routes : Routes at [] routed
routed-Routes f opts = refl

same_target : SameIds (target addr cfg) peer_cfg
same_target = record {
  svc = same_ids.svc;
  tx = same_ids.tx;
  rx = same_ids.rx;
  apart = same_ids.apart;
  tx_there = same_ids.tx_there;
  rx_there = same_ids.rx_there;
}

answered : Answered idle addr 1000 answers second found
unfolding idle
answered = record {
  bus = refl;
  address = refl;
  scanned = scan_finds;
  seen = is_first;
  scan_due = refl;
  connect_due = refl;
  submitted = refl;
  subscribes = refl;
}

handover_connects_example :
    (ready_as central (some linked.impl) ≡ true)
    × (ready_as peripheral (some peer) ≡ true)
    × (central_write routed (1 ∷ 2 ∷ []) linked.impl ≡ true)
    × ((rx_WriteValue (relayed [] (1 ∷ 2 ∷ []) write_options)).1 ≡ some (1 ∷ 2 ∷ []))
    × (changed : Changed) × (emit_value_props_changed_ay peer.bus tx_path (1 ∷ 2 ∷ [])
        ≡ some changed)
    × (changed.props ≡ (codes "Value", bytes (1 ∷ 2 ∷ [])) ∷ [])
    × (heard by_path (target addr cfg) (record changed { path = at tx_path }) linked.impl
        ≡ (linked.impl, none))
unfolding idle start_peripheral to_upper to_lower
handover_connects_example =
    handover_connects idle addr 1000 6000 (λ props. replied) replied answers second found peer_cfg
      exports new_impl at adapter battery [] routed by_path (1 ∷ 2 ∷ []) answered refl same_target
      (λ path. refl) refl refl refl routed-Routes refl (λ r path e. sym (str_eq-eq r.path path e))
      refl
