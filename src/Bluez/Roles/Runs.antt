-- ===== src/Bluez/Roles/Runs.antt =====
-- A peripheral that starts, and one whose advertisement is refused.
use bitchat_clone.Base.{◌≡◌, refl, Bool, true, false, [], none}
use bitchat_clone.Dbus.{replied}
use bitchat_clone.Bluez.{peripheral, Bluez}
use bitchat_clone.Bluez.Roles.{Bus, start_on, has_bus, start_all_or_nothing}

abbrev off : Bluez
off = record {
  cfg = record {
    role = peripheral;
    adapter = [];
    svc_uuid = [];
    tx_uuid = [];
    rx_uuid = [];
    peer_addr = none;
  };
  attached = false;
  mtu = 100;
  running = false;
  impl = none;
}

-- The last argument says whether RegisterAdvertisement can be submitted.
abbrev bus : Bool → Bus
bus advertised = record {
  opening = record {
    opened = true;
    matches = λ rule. true;
    filter = λ props. replied;
    start = replied;
  };
  exports = record {
    opened = true;
    object_manager = true;
    service = true;
    tx = true;
    rx = true;
    application = true;
    advertisement_object = true;
    advertisement = advertised;
  };
  write = λ path f options. replied;
  signal = λ m. true;
}

start_all_or_nothing_example :
    ((start_on (bus false) 100 off).1 ≡ false)
    × ((start_on (bus false) 100 off).0.running ≡ false)
    × (has_bus (start_on (bus false) 100 off).0.impl ≡ false)
start_all_or_nothing_example = start_all_or_nothing (bus false) 100 off refl

starts : (start_on (bus true) 100 off).0.running ≡ true
starts = (start_all_or_nothing (bus true) 100 off refl).1
