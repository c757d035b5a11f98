-- ===== src/Bluez/Central/Placed.antt =====
-- Objects at the path of their address, and what the central makes of them.
use bitchat_clone.Base.{
  ℕ, ◌≡◌, refl, Bool, true, false, ◌&&◌, ◌||◌, List, [], ◌∷◌, Option, none, some, arith, map,
  if◌then◌else◌,
}
use bitchat_clone.Text.{to_upper, str_eq, starts_with}
use bitchat_clone.Dbus.{Object, Objects, mac_eq, mac_eq_tail, path_mac_eq}
use bitchat_clone.Bluez.{Config, Impl, no_bytes}
use bitchat_clone.Bluez.Central.Scan.{
  Device, no_device, read_ifaces, ◌>>=◌, and_found, read_objects, dev_prefix, peer_of, on_found,
  all_found, update, whole_or_none, central_cold_scan,
}
use bitchat_clone.Bluez.Central.Signals.{on_device, on_iface_added}
use bitchat_clone.Bluez.Central.Machine.{Event, added, pumped}

-- The device, if there is one, has the peer's address in its path.
abbrev pub on_target : Config → Impl → Bool
on_target cfg i = no_bytes i.dev_path || path_mac_eq i.dev_path (peer_of cfg.peer_addr)

-- An object with an Address is at the path of that address.
abbrev pub at_address : List ℕ → Option Device → Bool
at_address path none = true
at_address path (some d) = no_bytes d.addr || path_mac_eq path d.addr

abbrev pub is_placed : List ℕ → Object → Bool
is_placed svc o = at_address o.path (read_ifaces svc o.ifaces no_device)

abbrev pub all_placed : List ℕ → List Object → Bool
all_placed svc [] = true
all_placed svc (o ∷ os) = is_placed svc o && all_placed svc os

abbrev pub reply_placed : List ℕ → Option Objects → Bool
reply_placed svc none = true
reply_placed svc (some os) = all_placed svc os.list

abbrev pub event_placed : List ℕ → Event → Bool
event_placed svc (added now o whole) = is_placed svc o
event_placed svc (pumped a) = reply_placed svc a.scan && reply_placed svc a.refresh
event_placed svc _ = true

abbrev pub events_placed : List ℕ → List Event → Bool
events_placed svc [] = true
events_placed svc (e ∷ es) = event_placed svc e && events_placed svc es

str_eq_trans : (a b c : List ℕ) → str_eq a b ≡ true → str_eq b c ≡ true → str_eq a c ≡ true
str_eq_trans [] [] [] h k = refl
str_eq_trans [] [] (x ∷ c) h k = k
str_eq_trans [] (y ∷ b) c h k = ground arith
str_eq_trans (x ∷ a) [] c h k = ground arith
str_eq_trans (x ∷ a) (y ∷ b) [] h k = ground arith
str_eq_trans (x ∷ a) (y ∷ b) (z ∷ c) h k = ground (arith, str_eq_trans a b c)

tail_eq_trans :
    (tail : Option (List ℕ)) (a b : List ℕ)
    → mac_eq_tail tail a ≡ true
    → mac_eq a b ≡ true
    → mac_eq_tail tail b ≡ true
tail_eq_trans none a b h k = h
tail_eq_trans (some t) a b h k = str_eq_trans _ (map to_upper a) (map to_upper b) h k

pub path_mac_eq_trans :
    (path a b : List ℕ) → path_mac_eq path a ≡ true → mac_eq a b ≡ true → path_mac_eq path b ≡ true
unfolding path_mac_eq
path_mac_eq_trans path a b h k = tail_eq_trans _ a b h k

on_found-on_target :
    (cfg : Config) (only : Bool) (now : ℕ) (path : List ℕ) (d : Device) (i : Impl)
    → at_address path (some d) ≡ true
    → on_target cfg i ≡ true
    → on_target cfg (on_found cfg only now path d i) ≡ true
on_found-on_target cfg only now path d i p h =
    ground (arith, path_mac_eq_trans path d.addr (peer_of cfg.peer_addr))

abbrev found_placed : List (List ℕ × Device) → Bool
found_placed [] = true
found_placed ((path, d) ∷ rest) = at_address path (some d) && found_placed rest

all_found-on_target :
    (cfg : Config) (only : Bool) (now : ℕ) (found : List (List ℕ × Device)) (i : Impl)
    → found_placed found ≡ true
    → on_target cfg i ≡ true
    → on_target cfg (all_found cfg only now found i) ≡ true
unfolding all_found
all_found-on_target cfg only now [] i p h = h
all_found-on_target cfg only now ((path, d) ∷ rest) i p h =
    all_found-on_target cfg only now rest (on_found cfg only now path d i) (ground arith)
      (on_found-on_target cfg only now path d i (ground arith) h)

abbrev some_placed : Option (List (List ℕ × Device)) → Bool
some_placed none = true
some_placed (some found) = found_placed found

add_placed :
    (path : List ℕ) (d : Option Device) (rest : Option (List (List ℕ × Device)))
    → at_address path d ≡ true
    → some_placed rest ≡ true
    → some_placed (d >>= (λ d. rest >>= and_found path d)) ≡ true
add_placed path none rest p h = refl
add_placed path (some d) none p h = refl
add_placed path (some d) (some rest) p h = ground arith

either_placed :
    (t : Bool) (x y : Option (List (List ℕ × Device)))
    → some_placed x ≡ true
    → some_placed y ≡ true
    → some_placed (if t then x else y) ≡ true
either_placed true x y h k = h
either_placed false x y h k = k

read_objects-placed :
    (cfg : Config) (os : List Object)
    → all_placed cfg.svc_uuid os ≡ true
    → some_placed (read_objects cfg os) ≡ true
unfolding read_objects
read_objects-placed cfg [] p = refl
read_objects-placed cfg (o ∷ os) p =
    let rest = read_objects-placed cfg os (ground arith) in
    either_placed (starts_with (dev_prefix cfg) o.path) _ _
      (add_placed o.path (read_ifaces cfg.svc_uuid o.ifaces no_device) _ (ground arith) rest) rest

whole_or_none-placed :
    (cfg : Config) (reply : Option Objects)
    → reply_placed cfg.svc_uuid reply ≡ true
    → some_placed (whole_or_none cfg reply) ≡ true
unfolding whole_or_none
whole_or_none-placed cfg none p = refl
whole_or_none-placed cfg (some os) p =
    either_placed os.whole _ none (read_objects-placed cfg os.list p) refl

update-on_target :
    (cfg : Config) (only : Bool) (now : ℕ) (found : Option (List (List ℕ × Device))) (i : Impl)
    → some_placed found ≡ true
    → on_target cfg i ≡ true
    → on_target cfg (update cfg only now found i) ≡ true
update-on_target cfg only now none i p h = h
update-on_target cfg only now (some found) i p h = all_found-on_target cfg only now found i p h

pub cold_scan-on_target :
    (cfg : Config) (only : Bool) (now : ℕ) (reply : Option Objects) (i : Impl)
    → reply_placed cfg.svc_uuid reply ≡ true
    → on_target cfg i ≡ true
    → on_target cfg (central_cold_scan cfg only now reply i) ≡ true
unfolding central_cold_scan
cold_scan-on_target cfg only now reply i p h = ground (
  arith,
  update-on_target cfg only now (whole_or_none cfg reply) i (whole_or_none-placed cfg reply p) h,
)

on_device-on_target :
    (cfg : Config) (now : ℕ) (path : List ℕ) (d : Option Device) (i : Impl)
    → at_address path d ≡ true
    → on_target cfg i ≡ true
    → on_target cfg (on_device cfg now path d i) ≡ true
on_device-on_target cfg now path none i p h = h
on_device-on_target cfg now path (some d) i p h =
    ground (arith, path_mac_eq_trans path d.addr (peer_of cfg.peer_addr))

pub added-on_target :
    (cfg : Config) (now : ℕ) (o : Object) (whole : Bool) (i : Impl)
    → is_placed cfg.svc_uuid o ≡ true
    → on_target cfg i ≡ true
    → on_target cfg (on_iface_added cfg now o whole i) ≡ true
unfolding on_iface_added
added-on_target cfg now o whole i p h =
    ground (
      arith,
      on_device-on_target cfg now o.path (read_ifaces cfg.svc_uuid o.ifaces no_device) i p h,
    )
