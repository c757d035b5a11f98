-- ===== src/Dbus.antt =====
-- What the program reads from a message of the bus, and the helpers of
-- include/transport/bluez_dbus_util.hpp. The calls sd_bus_message_* are libsystemd's: a message is
-- given as what they read from it, up to the first that fails.
use bitchat_clone.Base.{
  ℕ, ◌≡◌, Bool, true, false, ◌||◌, List, [], ◌∷◌, Option, none, some, if◌then◌else◌, length, drop,
  map, ◌==◌,
}
use bitchat_clone.Text.{codes, str_eq, starts_with, to_lower, to_upper}

-- The contents of a variant, with the types that the program asks for.
pub data Variant : Type 0 where
  text : List ℕ → Variant
  texts : List (List ℕ) → Variant
  int16 : ℕ → Variant
  word16 : ℕ → Variant
  boolean : Bool → Variant
  bytes : List ℕ → Variant
  other : Variant

abbrev pub Props : Type 0
Props = List (List ℕ × Variant)

pub record Iface : Type 0 where
  pub name : List ℕ
  pub props : Props

pub record Object : Type 0 where
  pub path : List ℕ
  pub ifaces : List Iface

-- `whole` says that the reading reached the end.
pub record Objects : Type 0 where
  pub list : List Object
  pub whole : Bool

-- A PropertiesChanged signal of the object at `path`.
pub record Changed : Type 0 where
  pub path : List ℕ
  pub iface : List ℕ
  pub props : Props
  pub whole : Bool

-- What sd_bus_match_signal is called with; the sender is org.bluez each time.
pub record Rule : Type 0 where
  pub path : List ℕ
  pub iface : List ℕ
  pub member : List ℕ

-- libsystemd's: whether a signal of the rule's interface and member, from the object at the path, is
-- taken. A rule with a path takes the signals of the object at exactly that path.
abbrev pub Hears : Type 0
Hears = Rule → List ℕ → Bool

abbrev pub Exact : Hears → Type 0
Exact hears = (r : Rule) (path : List ℕ) → hears r path ≡ true → path ≡ r.path

-- What a call of a method answers: `refused` has the name and the message of the error.
pub data Called : Type 0 where
  replied : Called
  bad_message : Called
  refused : List ℕ → List ℕ → Called

-- `ieq` and `mac_eq`: equal when both are in lower or in upper case.
abbrev pub ieq : List ℕ → List ℕ → Bool
ieq a b = str_eq (map to_lower a) (map to_lower b)

abbrev pub mac_eq : List ℕ → List ℕ → Bool
mac_eq a b = str_eq (map to_upper a) (map to_upper b)

-- `s.substr(s.rfind(pattern) + pattern.size())`
unfoldable pub after_last : List ℕ → List ℕ → Option (List ℕ)
after_last pattern [] = none
after_last pattern (c ∷ cs) = elim (after_last pattern cs) [
  | some rest ↦ some rest
  | none ↦ (if starts_with pattern (c ∷ cs) then some (drop (length pattern) (c ∷ cs)) else none)
]

abbrev pub with_colons : List ℕ → List ℕ
with_colons [] = []
with_colons (c ∷ cs) = (if c == b'_' then b':' else c) ∷ with_colons cs

abbrev pub mac_eq_tail : Option (List ℕ) → List ℕ → Bool
mac_eq_tail none mac = false
mac_eq_tail (some tail) mac = mac_eq (with_colons tail) mac

unfoldable pub path_mac_eq : List ℕ → List ℕ → Bool
path_mac_eq path mac = mac_eq_tail (after_last (codes "/dev_") path) mac

-- `none` is a negative result: the variant has another type.
abbrev pub read_var_s : Variant → Option (List ℕ)
read_var_s (text s) = some s
read_var_s _ = none

abbrev pub read_var_i16 : Variant → Option ℕ
read_var_i16 (int16 n) = some n
read_var_i16 _ = none

abbrev pub has_uuid : List ℕ → List (List ℕ) → Bool
has_uuid want [] = false
has_uuid want (u ∷ us) = ieq u want || has_uuid want us

abbrev pub var_as_has_uuid : List ℕ → Variant → Option Bool
var_as_has_uuid want (texts us) = some (has_uuid want us)
var_as_has_uuid want _ = none
