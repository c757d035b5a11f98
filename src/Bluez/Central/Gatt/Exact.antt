-- ===== src/Bluez/Central/Gatt/Exact.antt =====
-- Which paths the walk over the objects of the bus finds.
use bitchat_clone.Base.{
  ℕ, ◌≡◌, Bool, true, false, not, ◌&&◌, ◌||◌, List, [], ◌∷◌, ◌++◌, Option, none, some, arith,
  Bool-cases, both_true, inl, inr,
}
use bitchat_clone.Text.{codes, str_eq, str_eq-eq, starts_with}
use bitchat_clone.Dbus.{read_var_s, Props, Iface, Object, Objects}
use bitchat_clone.Bluez.{Config, Impl, no_bytes}
use bitchat_clone.Bluez.Central.Gatt.{
  Paths, gatt_paths_ready, Walk, and_then, match_svc, service_props, char_props, on_char, on_iface,
  walk_ifaces, walk_objects, paths_of, central_find_gatt_paths,
}
use bitchat_clone.Bluez.Central.Gatt.Parts.{
  Parts, both, all_parts, objects_readable, is_uuid, says_uuid, char_part, iface_part, ifaces_parts,
  objects_parts,
}
use bitchat_clone.Bluez.Central.Gatt.Complete.{find_gatt_paths_complete}

-- Tests on the three paths.
module _ (s t x : List ℕ → Bool) where
  abbrev paths_ok : Paths → Bool
  paths_ok g = s g.svc && t g.tx && x g.rx

  -- A path where these parts are passes the tests of the parts.
  abbrev pub part_ok : List ℕ → Parts → Bool
  part_ok path p = (not p.svc || s path) && (not p.tx || t path) && (not p.rx || x path)

  abbrev pub objects_ok : Config → List ℕ → List Object → Bool
  objects_ok cfg dev [] = true
  objects_ok cfg dev (o ∷ os) =
      (not (starts_with (dev ++ codes "/") o.path) || part_ok o.path (ifaces_parts cfg o.ifaces))
      && objects_ok cfg dev os

  and_then-ok :
      (w : Walk) (next : Paths → Walk)
      → paths_ok w.0 ≡ true
      → ((g : Paths) → paths_ok g ≡ true → paths_ok (next g).0 ≡ true)
      → paths_ok (and_then w next).0 ≡ true
  and_then-ok (g, true) next h k = k g h
  and_then-ok (g, false) next h k = h

  match_svc-ok :
      (want path : List ℕ) (o : Option (List ℕ)) (g : Paths)
      → (not (is_uuid want o) || s path) ≡ true
      → paths_ok g ≡ true
      → paths_ok (match_svc want path o g).0 ≡ true
  match_svc-ok want path none g k h = h
  match_svc-ok want path (some u) g k h = ground arith

  service_props-ok :
      (want path : List ℕ) (props : Props) (g : Paths)
      → (not (says_uuid want props) || s path) ≡ true
      → paths_ok g ≡ true
      → paths_ok (service_props want path props g).0 ≡ true
  service_props-ok want path [] g k h = h
  service_props-ok want path ((key, v) ∷ rest) g k h =
      elim (Bool-cases (str_eq key (codes "UUID"))) [
        | inr other ↦ rw other (service_props-ok want path rest g (ground arith) h)
        | inl uuid ↦ rw uuid (
            and_then-ok (match_svc want path (read_var_s v) g) (service_props want path rest)
              (match_svc-ok want path (read_var_s v) g (ground arith) h)
              (λ g' m. service_props-ok want path rest g' (ground arith) m))
      ]

  on_char-ok :
      (cfg : Config) (path : List ℕ) (w : List ℕ × Bool) (g : Paths)
      → part_ok path (char_part cfg w.0) ≡ true
      → paths_ok g ≡ true
      → paths_ok (on_char cfg path w g).0 ≡ true
  on_char-ok cfg path (uuid, ok) g k h = ground arith

  on_iface-ok :
      (cfg : Config) (path : List ℕ) (f : Iface) (g : Paths)
      → part_ok path (iface_part cfg f) ≡ true
      → paths_ok g ≡ true
      → paths_ok (on_iface cfg path f g).0 ≡ true
  unfolding on_iface
  on_iface-ok cfg path f g k h =
      elim (Bool-cases (str_eq f.name (codes "org.bluez.GattService1"))) [
        | inl service ↦
            rw service
              (service_props-ok cfg.svc_uuid path f.props g (of_service (rw service at k)) h)
        | inr no_service ↦
            elim (Bool-cases (str_eq f.name (codes "org.bluez.GattCharacteristic1"))) [
              | inl char ↦
                  rw (no_service, char)
                    (on_char-ok cfg path (char_props f.props []) g (rw (no_service, char) at k) h)
              | inr other ↦ rw (no_service, other) h
            ]
      ]
    where
      of_service :
          part_ok path (record { svc = says_uuid cfg.svc_uuid f.props; tx = false; rx = false })
            ≡ true
          → (not (says_uuid cfg.svc_uuid f.props) || s path) ≡ true
      of_service k = ground arith

  walk_ifaces-ok :
      (cfg : Config) (path : List ℕ) (fs : List Iface) (g : Paths)
      → part_ok path (ifaces_parts cfg fs) ≡ true
      → paths_ok g ≡ true
      → paths_ok (walk_ifaces cfg path fs g).0 ≡ true
  unfolding walk_ifaces
  walk_ifaces-ok cfg path [] g k h = h
  walk_ifaces-ok cfg path (f ∷ fs) g k h =
      let (first, rest) = parts_split path (iface_part cfg f) (ifaces_parts cfg fs) k in
      and_then-ok (on_iface cfg path f g) (walk_ifaces cfg path fs)
        (on_iface-ok cfg path f g first h) (λ g' m. walk_ifaces-ok cfg path fs g' rest m)
    where
      parts_split :
          (path : List ℕ) (p q : Parts)
          → part_ok path (both p q) ≡ true
          → (part_ok path p ≡ true) × (part_ok path q ≡ true)
      parts_split path p q k = (ground arith, ground arith)

  walk_objects-ok :
      (cfg : Config) (dev : List ℕ) (os : List Object) (g : Paths)
      → objects_ok cfg dev os ≡ true
      → paths_ok g ≡ true
      → paths_ok (walk_objects cfg dev os g).0 ≡ true
  unfolding walk_objects
  walk_objects-ok cfg dev [] g k h = h
  walk_objects-ok cfg dev (o ∷ os) g k h =
      elim (Bool-cases (starts_with (dev ++ codes "/") o.path)) [
        | inr other ↦ rw other (walk_objects-ok cfg dev os g (rw other at k) h)
        | inl under ↦
            let (first, rest) = both_true _ _ (rw under at k) in
            rw under (
              and_then-ok (walk_ifaces cfg o.path o.ifaces g) (walk_objects cfg dev os)
                (walk_ifaces-ok cfg o.path o.ifaces g first h)
                (λ g' m. walk_objects-ok cfg dev os g' rest m))
      ]

-- No path, or this one.
abbrev pub none_or : List ℕ → List ℕ → Bool
none_or p path = no_bytes path || str_eq path p

one_of : (p path : List ℕ) → none_or p path ≡ true → no_bytes path ≡ false → path ≡ p
one_of p path h full = str_eq-eq path p (ground arith)

exact_paths :
    (sp tp xp : List ℕ) (g : Paths)
    → paths_ok (none_or sp) (none_or tp) (none_or xp) g ≡ true
    → gatt_paths_ready g ≡ true
    → g ≡ record { svc = sp; tx = tp; rx = xp }
exact_paths sp tp xp g h full = λ i. record {
  svc = one_of sp g.svc (ground arith) (ground arith) i;
  tx = one_of tp g.tx (ground arith) (ground arith) i;
  rx = one_of xp g.rx (ground arith) (ground arith) i;
}

-- Where the bus is open, there is a device and no path of it yet, the service and the two characteristics are
-- among the objects under the device, each UUID at one path only, and every UUID that the bus tells
-- is a string: the three paths are found, and they are those, in whatever order the objects come.
pub find_gatt_paths_exact :
    (cfg : Config) (os : Objects) (i : Impl) (sp tp xp : List ℕ)
    → i.bus ≡ true
    → no_bytes i.dev_path ≡ false
    → no_bytes i.peer_svc_path && no_bytes i.peer_tx_path && no_bytes i.peer_rx_path ≡ true
    → objects_readable os.list ≡ true
    → all_parts (objects_parts cfg i.dev_path os.list) ≡ true
    → objects_ok (none_or sp) (none_or tp) (none_or xp) cfg i.dev_path os.list ≡ true
    → ((central_find_gatt_paths cfg (some os) i).1 ≡ true)
      × (paths_of (central_find_gatt_paths cfg (some os) i).0
          ≡ record { svc = sp; tx = tp; rx = xp })
unfolding central_find_gatt_paths
find_gatt_paths_exact cfg os i sp tp xp b d empty r a only =
    let (done, full) = find_gatt_paths_complete cfg os i b d r a in
    let start : paths_ok (none_or sp) (none_or tp) (none_or xp) (paths_of i) ≡ true =
      ground arith in
    let walked =
      walk_objects-ok (none_or sp) (none_or tp) (none_or xp) cfg i.dev_path os.list (paths_of i)
        only start in
    (done, exact_paths sp tp xp _ (ground (arith, walked)) full)
