-- ===== src/Bluez/Peripheral/Relay.antt =====
-- The bytes that one role sends are what the other hands on.
use bitchat_clone.Base.{
  ℕ, ◌≡◌, refl, ◌∙◌, Bool, true, false, not, ◌&&◌, List, [], ◌∷◌, ◌++◌, Option, none, some,
  if◌then◌else◌, arith, ◌==◌,
}
use bitchat_clone.Text.{codes, str_eq}
use bitchat_clone.Dbus.{text, bytes, word16, Props, Called, replied, refused, Changed}
use bitchat_clone.Bluez.{Impl, no_bytes}
use bitchat_clone.Bluez.Central.{write_options, central_write}
use bitchat_clone.Bluez.Peripheral.{
  Write, Reply, ok, invalid_offset, read_failed, offset_in, rx_WriteValue, tx_path, characteristic,
  emit_value_props_changed_ay, send_peripheral_impl, peripheral_can_notify,
}

abbrev pub no_offset : Props → Bool
no_offset [] = true
no_offset ((key, v) ∷ rest) = not (str_eq key (codes "offset")) && no_offset rest

offset_in_none : (opts : Props) (n : ℕ) → no_offset opts ≡ true → offset_in opts n ≡ some n
unfolding offset_in
offset_in_none [] n h = refl
offset_in_none ((key, v) ∷ rest) n h = ground (arith, offset_in_none rest n)

offset_in-append :
    (before after : Props) (n : ℕ)
    → no_offset before ≡ true
    → offset_in (before ++ after) n ≡ offset_in after n
unfolding offset_in
offset_in-append [] after n h = refl
offset_in-append ((key, v) ∷ before) after n h = ground (arith, offset_in-append before after n)

offset_in_middle :
    (before after : Props) (n : ℕ)
    → no_offset before ≡ true
    → no_offset after ≡ true
    → offset_in (before ++ ((codes "offset", word16 n) ∷ after)) 0 ≡ some n
unfolding offset_in
offset_in_middle before after n h k =
    offset_in-append before ((codes "offset", word16 n) ∷ after) 0 h ∙ offset_in_none after n k

-- What a call of WriteValue answers by its offset alone, for bytes that are not empty.
abbrev pub by_offset : ℕ → List ℕ → Reply × Option (List ℕ)
by_offset n f = if n == 0 then (ok, some f) else (invalid_offset n, none)

-- A write of bytes that are not empty, with one option `offset` among any others: at offset 0 the
-- bytes are handed on and the write succeeds, at any other offset it is refused and nothing is handed
-- on.
pub rx_WriteValue_by_offset :
    (f : List ℕ) (before after : Props) (n : ℕ)
    → no_bytes f ≡ false
    → no_offset before ≡ true
    → no_offset after ≡ true
    → rx_WriteValue (record {
      value = some f;
      options = before ++ ((codes "offset", word16 n) ∷ after);
      whole = true;
    })
      ≡ (if n == 0 then (ok, some f) else (invalid_offset n, none))
unfolding rx_WriteValue
rx_WriteValue_by_offset f before after n e h k = ground (arith, offset_in_middle before after n h k)

-- BlueZ hands the write to the peripheral's handler, perhaps with options of its own after the
-- central's, and the handler's reply back.
abbrev pub to_called : Reply → Called
to_called ok = replied
to_called (invalid_offset n) = refused (codes "org.bluez.Error.InvalidOffset") []
to_called read_failed = refused (codes "org.freedesktop.DBus.Error.Failed") []

abbrev pub relayed : Props → List ℕ → Props → Write
relayed extra f opts = record { value = some f; options = opts ++ extra; whole = true }

abbrev pub relay : Props → List ℕ → List ℕ → Props → Called
relay extra path f opts = to_called (rx_WriteValue (relayed extra f opts)).0

write_value_arrives :
    (f : List ℕ) (extra : Props)
    → no_bytes f ≡ false
    → no_offset extra ≡ true
    → rx_WriteValue (relayed extra f write_options) ≡ (ok, some f)
write_value_arrives f extra e h =
    rx_WriteValue_by_offset f ((codes "type", text (codes "request")) ∷ []) extra 0 e refl h

-- A frame that is not empty, written by a central that has the bus and the path of the peer's
-- characteristic: if BlueZ adds no offset of its own, the write succeeds and the peripheral's handler
-- hands on exactly the frame.
pub write_arrives :
    (i : Impl) (f : List ℕ) (extra : Props)
    → i.bus ≡ true
    → no_bytes i.peer_rx_path ≡ false
    → no_bytes f ≡ false
    → no_offset extra ≡ true
    → (central_write (relay extra) f i ≡ true)
      × ((rx_WriteValue (relayed extra f write_options)).1 ≡ some f)
unfolding central_write
write_arrives i f extra b p e h = (
  ground (arith, write_value_arrives f extra e h),
  ground (arith, write_value_arrives f extra e h),
)

-- A frame that is not empty, notified by a peripheral that has the bus and a subscription: a signal
-- with exactly the frame goes out, if the bus takes it.
pub notify_emits :
    (bus : Changed → Bool) (i : Impl) (f : List ℕ)
    → i.bus ≡ true
    → i.notifying ≡ true
    → no_bytes f ≡ false
    → (m : Changed) × (emit_value_props_changed_ay i.bus tx_path f ≡ some m)
      × (send_peripheral_impl bus i f ≡ bus m)
      × (m.props ≡ (codes "Value", bytes f) ∷ [])
unfolding send_peripheral_impl peripheral_can_notify
notify_emits bus i f b n e = (
  record {
    path = tx_path;
    iface = characteristic;
    props = (codes "Value", bytes f) ∷ [];
    whole = true;
  },
  ground arith,
  ground arith,
  refl,
)
