-- ===== src/Bluez/Peripheral/Tables.antt =====
-- The tables of src/transport/bluez_helper_peripheral.cpp, with what sd-bus reads from them: the names
-- of the properties and the handlers of the methods; and where `start_peripheral` exports them.
use bitchat_clone.Base.{ℕ, ◌&&◌, List, [], ◌∷◌, Option, none, some, if◌then◌else◌}
use bitchat_clone.Text.{codes, str_eq}
use bitchat_clone.Bluez.Peripheral.{svc_path, tx_path, rx_path, characteristic}

pub data Handler : Type 0 where
  start_notify_handler : Handler
  stop_notify_handler : Handler
  write_value_handler : Handler
  release_handler : Handler

pub record Table : Type 0 where
  pub props : List (List ℕ)
  pub methods : List (List ℕ × Handler)

abbrev pub gatt_service_vtable : Table
gatt_service_vtable = record {
  props = codes "UUID" ∷ codes "Primary" ∷ codes "Includes" ∷ [];
  methods = [];
}

abbrev pub gatt_tx_vtable : Table
gatt_tx_vtable = record {
  props = codes "UUID" ∷ codes "Service" ∷ codes "Flags" ∷ codes "Notifying" ∷ [];
  methods =
      (codes "StartNotify", start_notify_handler) ∷ (codes "StopNotify", stop_notify_handler) ∷ [];
}

abbrev pub gatt_rx_vtable : Table
gatt_rx_vtable = record {
  props = codes "UUID" ∷ codes "Service" ∷ codes "Flags" ∷ [];
  methods = (codes "WriteValue", write_value_handler) ∷ [];
}

abbrev pub adv_vtable : Table
adv_vtable = record {
  props = codes "Type" ∷ codes "ServiceUUIDs" ∷ codes "LocalName" ∷ codes "IncludeTxPower" ∷ [];
  methods = (codes "Release", release_handler) ∷ [];
}

abbrev pub adv_path : List ℕ
adv_path = codes "/com/bitchat/adv0"

-- The table that a call to this path and interface goes to, once all are exported.
unfoldable pub table_at : List ℕ → List ℕ → Option Table
table_at path iface =
    if str_eq path svc_path && str_eq iface (codes "org.bluez.GattService1")
    then some gatt_service_vtable
    else if str_eq path tx_path && str_eq iface characteristic
    then some gatt_tx_vtable
    else if str_eq path rx_path && str_eq iface characteristic
    then some gatt_rx_vtable
    else if str_eq path adv_path && str_eq iface (codes "org.bluez.LEAdvertisement1")
    then some adv_vtable
    else none

abbrev pub handler_in : List ℕ → List (List ℕ × Handler) → Option Handler
handler_in name [] = none
handler_in name ((m, h) ∷ rest) = if str_eq m name then some h else handler_in name rest

abbrev pub method_of : List ℕ → Option Table → Option Handler
method_of name none = none
method_of name (some t) = handler_in name t.methods

-- The handler of a call; `none` is the error of an unknown method or object.
unfoldable pub handler_at : List ℕ → List ℕ → List ℕ → Option Handler
handler_at path iface name = method_of name (table_at path iface)
