-- ===== src/Bluez/Central/Runs.antt =====
-- A central that is handed to a peer, loses it, and lets it go.
use bitchat_clone.Base.{ℕ, ◌≡◌, refl, true, false, List, [], ◌∷◌, ◌++◌, none, some}
use bitchat_clone.Text.{codes, to_upper, to_lower}
use bitchat_clone.Dbus.{
  text, texts, boolean, int16, replied, Object, Objects, after_last, path_mac_eq,
}
use bitchat_clone.Bluez.{central, Config, new_impl, ready_as, no_bytes}
use bitchat_clone.Bluez.Central.Gatt.Parts.{objects_parts, all_parts}
use bitchat_clone.Bluez.Central.Scan.{Device, read_objects, whole_or_none, central_cold_scan}
use bitchat_clone.Bluez.Central.Scan.Expected.{expected}
use bitchat_clone.Bluez.Central.Scan.First.{central_cold_scan_eq_expected}
use bitchat_clone.Bluez.Central.Scan.Taken.{first_peer}
use bitchat_clone.Bluez.Central.Signals.{on_iface_removed, on_connect_reply}
use bitchat_clone.Bluez.Central.Pump.{Answers, target}
use bitchat_clone.Bluez.Central.Machine.{
  Machine, Event, added, removed, changed, replied_connect, pumped, handed, step, run,
}
use bitchat_clone.Bluez.Central.Flags.{agree, run-agree}
use bitchat_clone.Bluez.Central.Placed.{on_target, events_placed}
use bitchat_clone.Bluez.Central.Target.{run-on_target}
use bitchat_clone.Bluez.Central.Parted.{disconnect_stays}
use bitchat_clone.Bluez.Central.Reach.{handover_reaches}

abbrev pub cfg : Config
cfg = record {
  role = central;
  adapter = codes "hci0";
  svc_uuid = codes "7e57";
  tx_uuid = codes "7e58";
  rx_uuid = codes "7e59";
  peer_addr = none;
}

abbrev pub start_state : Machine
unfolding new_impl
start_state = record { cfg = cfg; impl = record new_impl { bus = true } }

abbrev pub addr : List ℕ
addr = codes "AA:0B"

abbrev pub dev : List ℕ
dev = codes "/org/bluez/hci0/dev_AA_0B"

abbrev peer : Object
peer = record {
  path = dev;
  ifaces =
      record {
        name = codes "org.bluez.Device1";
        props = (codes "Address", text (codes "AA:0B")) ∷ (codes "RSSI", int16 65476) ∷ [];
      }
      ∷ [];
}

abbrev scanned : Objects
scanned = record { list = peer ∷ []; whole = true }

abbrev characteristic_at : List ℕ → List ℕ → Object
characteristic_at path uuid = record {
  path = path;
  ifaces =
      record {
        name = codes "org.bluez.GattCharacteristic1";
        props = (codes "UUID", text uuid) ∷ [];
      }
      ∷ [];
}

-- The service comes last, and the UUIDs are in upper case.
abbrev gatt : Objects
gatt = record {
  list =
      peer
      ∷ characteristic_at (dev ++ codes "/service000a/char000b") (codes "7E58")
      ∷ characteristic_at (dev ++ codes "/service000a/char000e") (codes "7E59")
      ∷ record {
        path = dev ++ codes "/service000a";
        ifaces =
            record {
              name = codes "org.bluez.GattService1";
              props = (codes "UUID", text (codes "7E57")) ∷ [];
            }
            ∷ [];
      }
      ∷ [];
  whole = true;
}

abbrev pub answers : Answers
answers = record {
  scan_ms = 5000;
  connect_ms = 5000;
  refresh_ms = 5000;
  scan = some scanned;
  connect = true;
  discover = replied;
  gatt = some gatt;
  notify = replied;
  start = replied;
  refresh = none;
}

abbrev pub up : List Event
up =
    handed addr 1000 (λ props. replied) replied
    ∷ pumped answers
    ∷ replied_connect 6000 none
    ∷ pumped answers
    ∷ []

abbrev pub found : List (List ℕ × Device)
found = (dev, record { addr = codes "AA:0B"; rssi = 65476; have_rssi = true; svc_hit = false }) ∷ []

pub scan_finds : whole_or_none (target addr cfg) (some scanned) ≡ some found
unfolding whole_or_none read_objects
scan_finds = refl

pub is_first : no_bytes (first_peer (target addr cfg) found) ≡ false
unfolding path_mac_eq after_last to_upper
is_first = refl

parts_there :
    all_parts (objects_parts (target addr cfg) (first_peer (target addr cfg) found) gatt.list)
    ≡ true
unfolding to_upper to_lower
parts_there = refl

pub start_agrees :
    (agree start_state.impl ≡ true) × (ready_as central (some start_state.impl) ≡ false)
unfolding start_state
start_agrees = (refl, refl)

pub up_is_ready : ready_as central (some (run start_state up).impl) ≡ true
unfolding start_state
up_is_ready =
    handover_reaches start_state addr 1000 6000 (λ props. replied) replied answers answers found
      gatt refl refl scan_finds is_first refl refl refl refl refl parts_there refl

run-agree_example : agree (run start_state up).impl ≡ true
unfolding start_state
run-agree_example = run-agree start_state up refl

placed : events_placed cfg.svc_uuid up ≡ true
unfolding path_mac_eq after_last to_upper
placed = refl

run-on_target_example : on_target (run start_state up).cfg (run start_state up).impl ≡ true
unfolding start_state
run-on_target_example = run-on_target start_state up placed refl

abbrev later : List Event
later =
    changed (record {
      path = dev;
      iface = codes "org.bluez.Device1";
      props = (codes "Connected", boolean true) ∷ (codes "UUIDs", texts (codes "7e57" ∷ [])) ∷ [];
      whole = true;
    })
    ∷ added 7000 peer true
    ∷ pumped answers
    ∷ []

abbrev linked : Machine
unfolding new_impl
linked = record {
  cfg = target addr cfg;
  impl = record new_impl {
    bus = true;
    discovery_on = true;
    dev_path = dev;
    connected = true;
    subscribed = true;
  };
}

disconnect_stays_example :
    ((run (step linked (handed [] 7000 (λ props. replied) replied)) later).impl.dev_path ≡ [])
    × ((run (step linked (handed [] 7000 (λ props. replied) replied)) later).impl.connect_inflight
        ≡ false)
    × (ready_as central
          (some (run (step linked (handed [] 7000 (λ props. replied) replied)) later).impl)
        ≡ false)
unfolding linked
disconnect_stays_example = disconnect_stays linked 7000 (λ props. replied) replied later refl refl

central_cold_scan_eq_expected_example :
    (central_cold_scan (target addr cfg) false 5000 (some scanned) start_state.impl).dev_path
    ≡ expected (target addr cfg) (some scanned)
unfolding start_state
central_cold_scan_eq_expected_example =
    central_cold_scan_eq_expected (target addr cfg) 5000 (some scanned) start_state.impl refl refl

-- The device is removed while a connection to it is tried, and the reply is no error: the central is
-- connected, to no device.
connected_to_none :
    (run
      (record {
        cfg = cfg;
        impl = record linked.impl {
          connected = false;
          subscribed = false;
          connect_inflight = true;
        };
      })
      (removed dev ∷ replied_connect 8000 none ∷ [])).impl
    ≡ record linked.impl { dev_path = []; subscribed = false }
unfolding linked run step on_iface_removed on_connect_reply new_impl
connected_to_none = refl
