-- ===== src/Bluez/Central/Gatt/Complete.antt =====
-- The walk over the objects of the bus finds what is there.
use bitchat_clone.Base.{
  ℕ, ◌≡◌, refl, subst, Bool, true, false, not, ◌&&◌, ◌||◌, List, [], ◌∷◌, ◌++◌, Option, none, some,
  if◌then◌else◌, arith,
}
use bitchat_clone.Text.{codes, str_eq, starts_with}
use bitchat_clone.Dbus.{text, read_var_s, Props, Iface, Object, Objects, ieq}
use bitchat_clone.Bluez.{Config, Impl, no_bytes}
use bitchat_clone.Bluez.Central.Gatt.{
  Paths, gatt_paths_ready, Walk, and_then, match_svc, service_props, char_props, on_char, on_iface,
  walk_ifaces, walk_objects, paths_of, central_find_gatt_paths,
}
use bitchat_clone.Bluez.Central.Gatt.Parts.{
  Parts, no_parts, both, all_parts, is_text, uuids_readable, ifaces_readable, objects_readable,
  is_uuid, says_uuid, char_part, iface_part, ifaces_parts, objects_parts,
}

-- Every part of these has a path.
abbrev meets : Parts → Paths → Bool
meets p g =
    (not p.svc || not (no_bytes g.svc))
    && (not p.tx || not (no_bytes g.tx))
    && (not p.rx || not (no_bytes g.rx))

-- The walk stopped with all the paths, or goes on with these.
abbrev on_way : Parts → Walk → Bool
on_way p (g, go) = gatt_paths_ready g || (go && meets p g)

both_assoc : (p q r : Parts) → both (both p q) r ≡ both p (both q r)
both_assoc p q r = ground arith

and_then-on_way :
    (p q : Parts) (w : Walk) (next : Paths → Walk)
    → on_way p w ≡ true
    → ((g : Paths) → meets p g ≡ true → on_way q (next g) ≡ true)
    → on_way q (and_then w next) ≡ true
and_then-on_way p q (g, true) next h k = k g (ground arith)
and_then-on_way p q (g, false) next h k = ground arith

abbrev svc_only : Bool → Parts
svc_only b = record { svc = b; tx = false; rx = false }

both-svc_only :
    (p : Parts) (b c : Bool) → both (both p (svc_only b)) (svc_only c) ≡ both p (svc_only (b || c))
both-svc_only p b c = ground arith

match_svc-on_way :
    (p : Parts) (want path u : List ℕ) (g : Paths)
    → no_bytes path ≡ false
    → meets p g ≡ true
    → on_way (both p (svc_only (ieq u want))) (match_svc want path (some u) g) ≡ true
match_svc-on_way p want path u g e h = ground arith

entry-on_way :
    (p : Parts) (want path : List ℕ) (g : Paths) (t c : Bool) (o : Option (List ℕ))
    (next : Paths → Walk)
    → no_bytes path ≡ false
    → (not t || is_text o) ≡ true
    → ((q : Parts) (g : Paths) → meets q g ≡ true → on_way (both q (svc_only c)) (next g) ≡ true)
    → meets p g ≡ true
    → on_way
        (both p (svc_only ((t && is_uuid want o) || c)))
        (if t then and_then (match_svc want path o g) next else next g)
      ≡ true
entry-on_way p want path g false c o next e r k h = k p g h
entry-on_way p want path g true c none next e r k h = ground arith
entry-on_way p want path g true c (some u) next e r k h =
    let b = ieq u want in
    subst (λ q. on_way q (and_then (match_svc want path (some u) g) next) ≡ true)
      (both-svc_only p b c)
      (and_then-on_way (both p (svc_only b)) (both (both p (svc_only b)) (svc_only c)) _ next
        (match_svc-on_way p want path u g e h) (λ g' m. k (both p (svc_only b)) g' m))

service_props-on_way :
    (p : Parts) (want path : List ℕ) (props : Props) (g : Paths)
    → no_bytes path ≡ false
    → uuids_readable props ≡ true
    → meets p g ≡ true
    → on_way (both p (svc_only (says_uuid want props))) (service_props want path props g) ≡ true
service_props-on_way p want path [] g e r h = ground arith
service_props-on_way p want path ((key, v) ∷ rest) g e r h =
    entry-on_way p want path g (str_eq key (codes "UUID")) (says_uuid want rest) (read_var_s v)
      (service_props want path rest) e (ground arith)
      (λ q g' m. service_props-on_way q want path rest g' e (ground arith) m) h

char_props-readable :
    (props : Props) (uuid : List ℕ) → uuids_readable props ≡ true → (char_props props uuid).1 ≡ true
char_props-readable [] uuid r = refl
char_props-readable ((key, text u) ∷ rest) uuid r =
    ground (arith, char_props-readable rest u, char_props-readable rest uuid)
char_props-readable ((key, v) ∷ rest) uuid r = ground (arith, char_props-readable rest uuid)

on_char-on_way :
    (p : Parts) (cfg : Config) (path uuid : List ℕ) (g : Paths)
    → no_bytes path ≡ false
    → meets p g ≡ true
    → on_way (both p (char_part cfg uuid)) (on_char cfg path (uuid, true) g) ≡ true
on_char-on_way p cfg path uuid g e h = ground arith

-- What a pair of the UUID and the flag says once the flag is known.
char-on_way :
    (p : Parts) (cfg : Config) (path : List ℕ) (w : List ℕ × Bool) (g : Paths)
    → no_bytes path ≡ false
    → w.1 ≡ true
    → meets p g ≡ true
    → on_way (both p (char_part cfg w.0)) (on_char cfg path w g) ≡ true
char-on_way p cfg path (uuid, true) g e r h = on_char-on_way p cfg path uuid g e h
char-on_way p cfg path (uuid, false) g e r h = ground arith

either-on_way :
    (p a b : Parts) (t : Bool) (v w : Walk)
    → on_way (both p a) v ≡ true
    → on_way (both p b) w ≡ true
    → on_way (both p (if t then a else b)) (if t then v else w) ≡ true
either-on_way p a b true v w h k = h
either-on_way p a b false v w h k = k

on_iface-on_way :
    (p : Parts) (cfg : Config) (path : List ℕ) (f : Iface) (g : Paths)
    → no_bytes path ≡ false
    → uuids_readable f.props ≡ true
    → meets p g ≡ true
    → on_way (both p (iface_part cfg f)) (on_iface cfg path f g) ≡ true
unfolding on_iface
on_iface-on_way p cfg path f g e r h =
    either-on_way p _ _ (str_eq f.name (codes "org.bluez.GattService1")) _ _
      (service_props-on_way p cfg.svc_uuid path f.props g e r h)
      (either-on_way p _ no_parts (str_eq f.name (codes "org.bluez.GattCharacteristic1")) _
        (g, true)
        (char-on_way p cfg path (char_props f.props []) g e (char_props-readable f.props [] r) h)
        (ground arith))

walk_ifaces-on_way :
    (p : Parts) (cfg : Config) (path : List ℕ) (fs : List Iface) (g : Paths)
    → no_bytes path ≡ false
    → ifaces_readable fs ≡ true
    → meets p g ≡ true
    → on_way (both p (ifaces_parts cfg fs)) (walk_ifaces cfg path fs g) ≡ true
unfolding walk_ifaces
walk_ifaces-on_way p cfg path [] g e r h = ground arith
walk_ifaces-on_way p cfg path (f ∷ fs) g e r h =
    let q = both p (iface_part cfg f) in
    subst (λ q. on_way q (and_then (on_iface cfg path f g) (walk_ifaces cfg path fs)) ≡ true)
      (both_assoc p (iface_part cfg f) (ifaces_parts cfg fs))
      (and_then-on_way q (both q (ifaces_parts cfg fs)) (on_iface cfg path f g)
        (walk_ifaces cfg path fs) (on_iface-on_way p cfg path f g e (ground arith) h)
        (λ g' m. walk_ifaces-on_way q cfg path fs g' e (ground arith) m))

under_not_empty :
    (dev path : List ℕ) → starts_with (dev ++ codes "/") path ≡ true → no_bytes path ≡ false
under_not_empty [] [] h = ground arith
under_not_empty (d ∷ dev) [] h = ground arith
under_not_empty dev (c ∷ path) h = refl

object-on_way :
    (p a b : Parts) (t : Bool) (w : Walk) (next : Paths → Walk) (g : Paths)
    → (t ≡ true → on_way (both p a) w ≡ true)
    → ((q : Parts) (g : Paths) → meets q g ≡ true → on_way (both q b) (next g) ≡ true)
    → meets p g ≡ true
    → on_way (both p (if t then both a b else b)) (if t then and_then w next else next g) ≡ true
object-on_way p a b false w next g first k h = k p g h
object-on_way p a b true w next g first k h =
    subst (λ q. on_way q (and_then w next) ≡ true) (both_assoc p a b)
      (and_then-on_way (both p a) (both (both p a) b) w next (first refl)
        (λ g' m. k (both p a) g' m))

walk_objects-on_way :
    (p : Parts) (cfg : Config) (dev : List ℕ) (os : List Object) (g : Paths)
    → objects_readable os ≡ true
    → meets p g ≡ true
    → on_way (both p (objects_parts cfg dev os)) (walk_objects cfg dev os g) ≡ true
unfolding walk_objects
walk_objects-on_way p cfg dev [] g r h = ground arith
walk_objects-on_way p cfg dev (o ∷ os) g r h =
    object-on_way p (ifaces_parts cfg o.ifaces) (objects_parts cfg dev os)
      (starts_with (dev ++ codes "/") o.path) (walk_ifaces cfg o.path o.ifaces g)
      (walk_objects cfg dev os) g
      (λ under.
        walk_ifaces-on_way p cfg o.path o.ifaces g (under_not_empty dev o.path under) (ground arith)
          h)
      (λ q g' m. walk_objects-on_way q cfg dev os g' (ground arith) m) h

on_way_ready :
    (w : Walk) (p : Parts)
    → all_parts p ≡ true
    → on_way (both no_parts p) w ≡ true
    → gatt_paths_ready w.0 ≡ true
on_way_ready (g, go) p a h = ground arith

-- Where the bus is open and there is a device, the service and the two characteristics are among the
-- objects under it, and every UUID that the bus tells is a string: all three paths are found,
-- whatever was there before and in whatever order the objects come.
pub find_gatt_paths_complete :
    (cfg : Config) (os : Objects) (i : Impl)
    → i.bus ≡ true
    → no_bytes i.dev_path ≡ false
    → objects_readable os.list ≡ true
    → all_parts (objects_parts cfg i.dev_path os.list) ≡ true
    → ((central_find_gatt_paths cfg (some os) i).1 ≡ true)
      × (gatt_paths_ready (paths_of (central_find_gatt_paths cfg (some os) i).0) ≡ true)
unfolding central_find_gatt_paths
find_gatt_paths_complete cfg os i b d r a =
    let ready =
      on_way_ready (walk_objects cfg i.dev_path os.list (paths_of i))
        (objects_parts cfg i.dev_path os.list) a
        (walk_objects-on_way no_parts cfg i.dev_path os.list (paths_of i) r refl) in
    (ground arith, ground arith)
