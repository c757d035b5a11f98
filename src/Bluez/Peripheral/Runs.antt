-- ===== src/Bluez/Peripheral/Runs.antt =====
-- A write with an offset.
use bitchat_clone.Base.{ℕ, ◌≡◌, refl, true, List, [], ◌∷◌, ◌++◌, none, some}
use bitchat_clone.Text.{codes}
use bitchat_clone.Dbus.{text, word16, Props}
use bitchat_clone.Bluez.Peripheral.{invalid_offset, rx_WriteValue}
use bitchat_clone.Bluez.Peripheral.Relay.{rx_WriteValue_by_offset}

abbrev frame : List ℕ
frame = 1 ∷ 2 ∷ 3 ∷ []

abbrev extra : Props
extra = (codes "device", text (codes "/org/bluez/hci0/dev_AA")) ∷ []

rx_WriteValue_by_offset_example :
    rx_WriteValue (record {
      value = some frame;
      options = extra ++ ((codes "offset", word16 7) ∷ []);
      whole = true;
    })
    ≡ (invalid_offset 7, none)
rx_WriteValue_by_offset_example = rx_WriteValue_by_offset frame extra [] 7 refl refl refl
