-- ===== src/Bluez/Mirror/Runs.antt =====
-- The objects of a peripheral at a central that has found the device.
use bitchat_clone.Base.{ℕ, ◌≡◌, refl, true, List, [], ◌∷◌, ◌++◌, none, some}
use bitchat_clone.Text.{codes, to_lower}
use bitchat_clone.Dbus.{text, Object}
use bitchat_clone.Bluez.{peripheral, Config, Impl, new_impl}
use bitchat_clone.Bluez.Central.Gatt.{paths_of, central_find_gatt_paths}
use bitchat_clone.Bluez.Central.Runs.{cfg, dev}
use bitchat_clone.Bluez.Peripheral.{svc_path, tx_path, rx_path, characteristic}
use bitchat_clone.Bluez.Peripheral.Tables.{start_notify_handler, write_value_handler, handler_at}
use bitchat_clone.Bluez.Mirror.{mirror, SameIds, exports_found}

-- The other side writes the UUIDs in upper case.
abbrev pub peer_cfg : Config
peer_cfg = record {
  role = peripheral;
  adapter = codes "hci1";
  svc_uuid = codes "7E57";
  tx_uuid = codes "7E58";
  rx_uuid = codes "7E59";
  peer_addr = none;
}

pub same_ids : SameIds cfg peer_cfg
unfolding to_lower
same_ids = record {
  svc = refl;
  tx = refl;
  rx = refl;
  apart = refl;
  tx_there = refl;
  rx_there = refl;
}

abbrev pub at : List ℕ → List ℕ
at path = (dev ++ codes "/") ++ path

abbrev impl : Impl
unfolding new_impl
impl = record new_impl { bus = true; dev_path = dev }

abbrev pub adapter : List Object
adapter =
    record {
      path = codes "/org/bluez/hci0";
      ifaces = record { name = codes "org.bluez.Adapter1"; props = [] } ∷ [];
    }
    ∷ []

-- A characteristic of another service of the device.
abbrev pub battery : List Object
battery =
    record {
      path = at (codes "service0001/char0002");
      ifaces =
          record { name = characteristic; props = (codes "UUID", text (codes "2a19")) ∷ [] } ∷ [];
    }
    ∷ []

exports_found_example :
    ((central_find_gatt_paths cfg
        (some (record { list = adapter ++ (mirror peer_cfg at ++ battery); whole = true }))
        impl).1
      ≡ true)
    × (paths_of
          (central_find_gatt_paths cfg
            (some (record { list = adapter ++ (mirror peer_cfg at ++ battery); whole = true }))
            impl).0
        ≡ record { svc = at svc_path; tx = at tx_path; rx = at rx_path })
    × (handler_at tx_path characteristic (codes "StartNotify") ≡ some start_notify_handler)
    × (handler_at rx_path characteristic (codes "WriteValue") ≡ some write_value_handler)
unfolding to_lower new_impl
exports_found_example =
    exports_found cfg peer_cfg at adapter battery impl same_ids (λ path. refl) refl refl refl refl
      refl
