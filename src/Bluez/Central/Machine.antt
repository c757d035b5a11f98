-- ===== src/Bluez/Central/Machine.antt =====
-- The central as a machine: what the bus thread and the daemon can do to it, one step at a time. A
-- step is what is done under one hold of the lock `bus_mu`, or one callback.
use bitchat_clone.Base.{ℕ, Bool, List, [], ◌∷◌, Option, if◌then◌else◌}
use bitchat_clone.Dbus.{Called, Props, Object, Changed}
use bitchat_clone.Bluez.{Config, Impl}
use bitchat_clone.Bluez.Central.Signals.{
  on_iface_added, on_iface_removed, on_props_changed, on_connect_reply,
}
use bitchat_clone.Bluez.Central.Pump.{Answers, central_pump, target, handover}

pub record Machine : Type 0 where
  pub cfg : Config
  pub impl : Impl

-- `changed` is a call of the callback, which the subscription makes for signals of the root object
-- only (`heard`); here it may come with any signal.
-- `added`: now, the object, and whether it was read to its end. `replied`: now, and the error of
-- the reply. `handed`: the address, now, and the answers of the bus.
pub data Event : Type 0 where
  added : ℕ → Object → Bool → Event
  removed : List ℕ → Event
  changed : Changed → Event
  replied_connect : ℕ → Option (List ℕ × List ℕ) → Event
  pumped : Answers → Event
  handed : List ℕ → ℕ → (Props → Called) → Called → Event

-- A reply arrives only while a call of Connect is open: the handover cancels its callback.
abbrev pub on_reply : ℕ → Option (List ℕ × List ℕ) → Impl → Impl
on_reply now r i = if i.connect_inflight then on_connect_reply now r i else i

abbrev pub hand : List ℕ → ℕ → (Props → Called) → Called → Machine → Machine
hand addr now filter start m =
    if m.impl.bus
    then record { cfg = target addr m.cfg; impl = handover m.cfg addr now filter start m.impl }
    else m

unfoldable pub step : Machine → Event → Machine
step m (added now o whole) = record m { impl = on_iface_added m.cfg now o whole m.impl }
step m (removed path) = record m { impl = on_iface_removed path m.impl }
step m (changed s) = record m { impl = (on_props_changed m.cfg s m.impl).0 }
step m (replied_connect now r) = record m { impl = on_reply now r m.impl }
step m (pumped a) = record m { impl = central_pump m.cfg a m.impl }
step m (handed addr now filter start) = hand addr now filter start m

unfoldable pub run : Machine → List Event → Machine
run m [] = m
run m (e ∷ es) = run (step m e) es
