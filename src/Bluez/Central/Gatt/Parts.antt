-- ===== src/Bluez/Central/Gatt/Parts.antt =====
-- Which of the service and the two characteristics the objects of the bus have.
use bitchat_clone.Base.{
  ℕ, Bool, true, false, not, ◌&&◌, ◌||◌, List, [], ◌∷◌, ◌++◌, Option, none, some, if◌then◌else◌,
}
use bitchat_clone.Text.{codes, str_eq, starts_with}
use bitchat_clone.Dbus.{read_var_s, Props, Iface, Object, ieq}
use bitchat_clone.Bluez.{Config, no_bytes}
use bitchat_clone.Bluez.Central.Gatt.{char_props}

-- The paths that are looked for, or that are there.
pub record Parts : Type 0 where
  pub svc : Bool
  pub tx : Bool
  pub rx : Bool

abbrev pub no_parts : Parts
no_parts = record { svc = false; tx = false; rx = false }

abbrev pub both : Parts → Parts → Parts
both p q = record { svc = p.svc || q.svc; tx = p.tx || q.tx; rx = p.rx || q.rx }

abbrev pub all_parts : Parts → Bool
all_parts p = p.svc && p.tx && p.rx

-- Every UUID is a string.
abbrev pub is_text : Option (List ℕ) → Bool
is_text none = false
is_text (some s) = true

abbrev pub uuids_readable : Props → Bool
uuids_readable [] = true
uuids_readable ((key, v) ∷ rest) =
    (not (str_eq key (codes "UUID")) || is_text (read_var_s v)) && uuids_readable rest

abbrev pub ifaces_readable : List Iface → Bool
ifaces_readable [] = true
ifaces_readable (f ∷ fs) = uuids_readable f.props && ifaces_readable fs

abbrev pub objects_readable : List Object → Bool
objects_readable [] = true
objects_readable (o ∷ os) = ifaces_readable o.ifaces && objects_readable os

-- Whether a property UUID has this value.
abbrev pub is_uuid : List ℕ → Option (List ℕ) → Bool
is_uuid want none = false
is_uuid want (some u) = ieq u want

abbrev pub says_uuid : List ℕ → Props → Bool
says_uuid want [] = false
says_uuid want ((key, v) ∷ rest) =
    (str_eq key (codes "UUID") && is_uuid want (read_var_s v)) || says_uuid want rest

abbrev pub char_part : Config → List ℕ → Parts
char_part cfg uuid = record {
  svc = false;
  tx = not (no_bytes uuid) && ieq uuid cfg.tx_uuid;
  rx = not (no_bytes uuid) && not (ieq uuid cfg.tx_uuid) && ieq uuid cfg.rx_uuid;
}

-- What an interface is.
abbrev pub iface_part : Config → Iface → Parts
iface_part cfg f =
    if str_eq f.name (codes "org.bluez.GattService1")
    then record { svc = says_uuid cfg.svc_uuid f.props; tx = false; rx = false }
    else if str_eq f.name (codes "org.bluez.GattCharacteristic1")
    then char_part cfg (char_props f.props []).0
    else no_parts

abbrev pub ifaces_parts : Config → List Iface → Parts
ifaces_parts cfg [] = no_parts
ifaces_parts cfg (f ∷ fs) = both (iface_part cfg f) (ifaces_parts cfg fs)

-- The parts among the objects under the device.
abbrev pub objects_parts : Config → List ℕ → List Object → Parts
objects_parts cfg dev [] = no_parts
objects_parts cfg dev (o ∷ os) =
    if starts_with (dev ++ codes "/") o.path
    then both (ifaces_parts cfg o.ifaces) (objects_parts cfg dev os)
    else objects_parts cfg dev os
