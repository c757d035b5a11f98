-- ===== src/Bluez/Peripheral.antt =====
-- The peripheral role: src/transport/bluez_transport_peripheral.cpp, and the handlers of
-- src/transport/bluez_helper_peripheral.cpp that the bus calls.
pub mod Relay
pub mod Tables
mod Runs
use bitchat_clone.Base.{
  ℕ, Bool, true, false, not, ◌&&◌, ◌||◌, List, [], ◌∷◌, Option, none, some, if◌then◌else◌, ◌==◌,
}
use bitchat_clone.Text.{codes, str_eq}
use bitchat_clone.Dbus.{Variant, word16, bytes, Props, Changed}
use bitchat_clone.Bluez.{Config, Impl, no_bytes}

-- The paths of the objects that the program exports.
abbrev pub svc_path : List ℕ
svc_path = codes "/com/bitchat/app/svc0"

abbrev pub tx_path : List ℕ
tx_path = codes "/com/bitchat/app/svc0/char_tx"

abbrev pub rx_path : List ℕ
rx_path = codes "/com/bitchat/app/svc0/char_rx"

abbrev pub characteristic : List ℕ
characteristic = codes "org.bluez.GattCharacteristic1"

-- `emit_value_props_changed_ay`: the signal that is built and sent. `none` if there is nothing to
-- send; that the bus takes it is asked by its caller.
abbrev pub emit_value_props_changed_ay : Bool → List ℕ → List ℕ → Option Changed
emit_value_props_changed_ay bus path data_ =
    if not bus || no_bytes data_
    then none
    else some (record {
      path = path;
      iface = characteristic;
      props = (codes "Value", bytes data_) ∷ [];
      whole = true;
    })

unfoldable pub peripheral_can_notify : Impl → Bool
peripheral_can_notify i = if not i.bus then false else i.notifying

abbrev sent_to : (Changed → Bool) → Option Changed → Bool
sent_to bus none = false
sent_to bus (some m) = bus m

-- The argument says which signals the bus takes.
unfoldable pub send_peripheral_impl : (Changed → Bool) → Impl → List ℕ → Bool
send_peripheral_impl bus i f =
    if not (peripheral_can_notify i) || no_bytes f
    then false
    else sent_to bus (emit_value_props_changed_ay i.bus tx_path f)

-- Whether each call of the start succeeds, in order.
pub record Exports : Type 0 where
  pub opened : Bool
  pub object_manager : Bool
  pub service : Bool
  pub tx : Bool
  pub rx : Bool
  pub application : Bool
  pub advertisement_object : Bool
  pub advertisement : Bool

-- After a failure the bus stays open in Impl, which `start` throws away.
unfoldable pub start_peripheral : Exports → Impl → Impl × Bool
start_peripheral e i = (
  record i { bus = e.opened },
  e.opened && e.object_manager && e.service && e.tx && e.rx && e.application
      && e.advertisement_object && e.advertisement,
)

-- `Impl` is thrown away by the `stop` of the facade.
unfoldable pub stop_peripheral : Impl → Impl
stop_peripheral i = record i { bus = false }

-- A property of an interface whose change the bus announces.
pub record Announced : Type 0 where
  pub path : List ℕ
  pub iface : List ℕ
  pub prop : List ℕ

abbrev pub emit_tx_props_changed : List ℕ → Impl → Option Announced
emit_tx_props_changed prop i =
    if not i.bus
    then none
    else some (record { path = tx_path; iface = characteristic; prop = prop })

unfoldable pub tx_StartNotify : Impl → Impl × Option Announced
tx_StartNotify i =
    let i' : Impl = record i { notifying = true } in
    (i', emit_tx_props_changed (codes "Notifying") i')

unfoldable pub tx_StopNotify : Impl → Impl × Option Announced
tx_StopNotify i =
    let i' : Impl = record i { notifying = false } in
    (i', emit_tx_props_changed (codes "Notifying") i')

-- A call of WriteValue: `value` is `none` if the array cannot be read, and `whole` says whether the
-- options can be read to their end.
pub record Write : Type 0 where
  pub value : Option (List ℕ)
  pub options : Props
  pub whole : Bool

pub data Reply : Type 0 where
  ok : Reply
  invalid_offset : ℕ → Reply
  read_failed : Reply

abbrev pub read_offset : Variant → Option ℕ
read_offset (word16 n) = some n
read_offset _ = none

-- The last option of this name counts.
unfoldable pub offset_in : Props → ℕ → Option ℕ
offset_in [] offset = some offset
offset_in ((key, v) ∷ rest) offset =
    if str_eq key (codes "offset")
    then elim (read_offset v) [ none ↦ none | some n ↦ offset_in rest n ]
    else offset_in rest offset

abbrev on_offset : List ℕ → Option ℕ → Reply × Option (List ℕ)
on_offset data_ none = (read_failed, none)
on_offset data_ (some offset) =
    if not (offset == 0)
    then (invalid_offset offset, none)
    else if no_bytes data_
    then (ok, none)
    else (ok, some data_)

abbrev on_value : Write → Option (List ℕ) → Reply × Option (List ℕ)
on_value m none = (read_failed, none)
on_value m (some data_) = on_offset data_ (if m.whole then offset_in m.options 0 else none)

-- The reply, and the bytes that go to `deliver_rx_bytes`.
unfoldable pub rx_WriteValue : Write → Reply × Option (List ℕ)
rx_WriteValue m = on_value m m.value

-- The getters; `none` is -EINVAL.
abbrev pub svc_prop_uuid : Config → List ℕ
svc_prop_uuid cfg = cfg.svc_uuid

abbrev pub svc_prop_Primary : Bool
svc_prop_Primary = true

abbrev pub svc_prop_Includes : List (List ℕ)
svc_prop_Includes = []

abbrev pub chr_prop_uuid : Config → List ℕ → Option (List ℕ)
chr_prop_uuid cfg path =
    if str_eq path tx_path
    then some cfg.tx_uuid
    else if str_eq path rx_path
    then some cfg.rx_uuid
    else none

abbrev pub chr_prop_Service : List ℕ
chr_prop_Service = svc_path

abbrev pub chr_prop_Flags : List ℕ → Option (List (List ℕ))
chr_prop_Flags path =
    if str_eq path tx_path
    then some (codes "notify" ∷ [])
    else if str_eq path rx_path
    then some (codes "write" ∷ codes "write-without-response" ∷ [])
    else none

abbrev pub chr_prop_Notifying : List ℕ → Impl → Bool
chr_prop_Notifying path i = if str_eq path tx_path then i.notifying else false

abbrev pub adv_prop_Type : List ℕ
adv_prop_Type = codes "peripheral"

abbrev pub adv_prop_ServiceUUIDs : Config → List (List ℕ)
adv_prop_ServiceUUIDs cfg = cfg.svc_uuid ∷ []

abbrev pub adv_prop_LocalName : List ℕ
adv_prop_LocalName = codes "BitChat"

-- Appends 0.
abbrev pub adv_prop_IncludeTxPower : Bool
adv_prop_IncludeTxPower = false
