-- ===== src/Bluez/Mirror.antt =====
-- What a peripheral exports, as BlueZ shows it to the central, and what the central finds there.
pub mod Runs
use bitchat_clone.Base.{
  ℕ, ◌≡◌, refl, ap, sym, ◌∙◌, Bool, true, false, not, ◌&&◌, ◌||◌, List, [], ◌∷◌, ◌++◌, Option, none,
  some, if◌then◌else◌, arith, both_true,
}
use bitchat_clone.Text.{codes, str_eq, str_eq_refl, starts_with}
use bitchat_clone.Dbus.{text, texts, boolean, Props, Iface, Object, Objects, ieq}
use bitchat_clone.Bluez.{Config, Impl, no_bytes}
use bitchat_clone.Bluez.Central.Gatt.{Paths, paths_of, central_find_gatt_paths}
use bitchat_clone.Bluez.Central.Gatt.Parts.{
  Parts, no_parts, both, all_parts, ifaces_readable, objects_readable, ifaces_parts, objects_parts,
}
use bitchat_clone.Bluez.Central.Gatt.Exact.{none_or, part_ok, objects_ok, find_gatt_paths_exact}
use bitchat_clone.Bluez.Peripheral.{
  svc_path, tx_path, rx_path, characteristic, svc_prop_uuid, svc_prop_Primary, chr_prop_uuid,
  chr_prop_Service, chr_prop_Flags, chr_prop_Notifying,
}
use bitchat_clone.Bluez.Peripheral.Tables.{
  Handler, start_notify_handler, write_value_handler, table_at, handler_at,
}

-- A property that a getter gives.
abbrev pub text_if : List ℕ → Option (List ℕ) → Props
text_if key none = []
text_if key (some v) = (key, text v) ∷ []

abbrev pub texts_if : List ℕ → Option (List (List ℕ)) → Props
texts_if key none = []
texts_if key (some v) = (key, texts v) ∷ []

module _ (cfg : Config) (at : List ℕ → List ℕ) where
  abbrev pub service_object : Object
  service_object = record {
    path = at svc_path;
    ifaces =
        record {
          name = codes "org.bluez.GattService1";
          props =
              (codes "UUID", text (svc_prop_uuid cfg))
              ∷ (codes "Primary", boolean svc_prop_Primary)
              ∷ [];
        }
        ∷ [];
  }

  -- A characteristic; its service is at the path that BlueZ gives that.
  abbrev pub characteristic_object : List ℕ → Object
  characteristic_object path = record {
    path = at path;
    ifaces =
        record {
          name = characteristic;
          props =
              text_if (codes "UUID") (chr_prop_uuid cfg path)
              ++ ((codes "Service", text (at chr_prop_Service))
                  ∷ texts_if (codes "Flags") (chr_prop_Flags path));
        }
        ∷ [];
  }

  -- The peripheral's objects at the central, at the paths that BlueZ gives them there.
  abbrev pub mirror : List Object
  mirror = service_object ∷ characteristic_object tx_path ∷ characteristic_object rx_path ∷ []

-- Lists of objects end to end.
parts-append :
    (cfg : Config) (dev : List ℕ) (xs ys : List Object)
    → all_parts (objects_parts cfg dev ys) ≡ true
    → all_parts (objects_parts cfg dev (xs ++ ys)) ≡ true
parts-append cfg dev [] ys h = h
parts-append cfg dev (o ∷ xs) ys h = ground (arith, parts-append cfg dev xs ys h)

readable-append :
    (xs ys : List Object) → objects_readable (xs ++ ys) ≡ objects_readable xs && objects_readable ys
readable-append [] ys = refl
readable-append (o ∷ xs) ys = ground (arith, readable-append xs ys)

ok-append :
    (s t x : List ℕ → Bool) (cfg : Config) (dev : List ℕ) (xs ys : List Object)
    → objects_ok s t x cfg dev (xs ++ ys)
      ≡ objects_ok s t x cfg dev xs && objects_ok s t x cfg dev ys
ok-append s t x cfg dev [] ys = refl
ok-append s t x cfg dev (o ∷ xs) ys = ground (arith, ok-append s t x cfg dev xs ys)

-- The central and the peripheral mean the same service, in upper or in lower case.
pub record SameIds (c p : Config) : Type 0 where
  pub svc : ieq p.svc_uuid c.svc_uuid ≡ true
  pub tx : ieq p.tx_uuid c.tx_uuid ≡ true
  pub rx : ieq p.rx_uuid c.rx_uuid ≡ true
  pub apart : ieq p.rx_uuid c.tx_uuid ≡ false
  pub tx_there : no_bytes p.tx_uuid ≡ false
  pub rx_there : no_bytes p.rx_uuid ≡ false

module _ (c p : Config) (at : List ℕ → List ℕ) (dev : List ℕ) (ids : SameIds c p)
    (placed : (path : List ℕ) → starts_with (dev ++ codes "/") (at path) ≡ true) where
  mirror-parts :
      (after : List Object) → all_parts (objects_parts c dev (mirror p at ++ after)) ≡ true
  mirror-parts after = ground (arith, placed svc_path, placed tx_path, placed rx_path)

  mirror-ok :
      objects_ok
        (none_or (at svc_path))
        (none_or (at tx_path))
        (none_or (at rx_path))
        c
        dev
        (mirror p at)
      ≡ true
  mirror-ok = ground (
    arith,
    placed svc_path,
    placed tx_path,
    placed rx_path,
    str_eq_refl (at svc_path),
    str_eq_refl (at tx_path),
    str_eq_refl (at rx_path),
  )

weaker :
    (sp tp xp : List ℕ) (cfg : Config) (dev : List ℕ) (os : List Object)
    → objects_ok no_bytes no_bytes no_bytes cfg dev os ≡ true
    → objects_ok (none_or sp) (none_or tp) (none_or xp) cfg dev os ≡ true
weaker sp tp xp cfg dev [] h = refl
weaker sp tp xp cfg dev (o ∷ os) h = ground (arith, weaker sp tp xp cfg dev os)

-- What is done to the others' test by the mirror between them.
with_mirror-ok :
    (c p : Config) (at : List ℕ → List ℕ) (dev : List ℕ)
    → SameIds c p
    → ((path : List ℕ) → starts_with (dev ++ codes "/") (at path) ≡ true)
    → (before after : List Object)
    → objects_ok no_bytes no_bytes no_bytes c dev before
        && objects_ok no_bytes no_bytes no_bytes c dev after
      ≡ true
    → objects_ok
        (none_or (at svc_path))
        (none_or (at tx_path))
        (none_or (at rx_path))
        c
        dev
        (before ++ (mirror p at ++ after))
      ≡ true
with_mirror-ok c p at dev ids placed before after h =
    let sp = at svc_path in
    let tp = at tx_path in
    let xp = at rx_path in
    let ok = objects_ok (none_or sp) (none_or tp) (none_or xp) c dev in
    ok-append (none_or sp) (none_or tp) (none_or xp) c dev before (mirror p at ++ after)
    ∙ ap (λ b. ok before && b)
        (ok-append (none_or sp) (none_or tp) (none_or xp) c dev (mirror p at) after)
    ∙ all_three (ok before) (ok (mirror p at)) (ok after)
        (weaker sp tp xp c dev before (both_true _ _ h).0) (mirror-ok c p at dev ids placed)
        (weaker sp tp xp c dev after (both_true _ _ h).1)
  where
    all_three : (a b c : Bool) → a ≡ true → b ≡ true → c ≡ true → a && (b && c) ≡ true
    all_three a b c e f g = ground arith

-- What the walk asks of the objects with the mirror among them.
pub mirror_there :
    (c p : Config) (at : List ℕ → List ℕ) (dev : List ℕ) (before after : List Object)
    → SameIds c p
    → ((path : List ℕ) → starts_with (dev ++ codes "/") (at path) ≡ true)
    → objects_readable before && objects_readable after ≡ true
    → objects_ok no_bytes no_bytes no_bytes c dev (before ++ after) ≡ true
    → (objects_readable (before ++ (mirror p at ++ after)) ≡ true)
      × (all_parts (objects_parts c dev (before ++ (mirror p at ++ after))) ≡ true)
      × (objects_ok
            (none_or (at svc_path))
            (none_or (at tx_path))
            (none_or (at rx_path))
            c
            dev
            (before ++ (mirror p at ++ after))
          ≡ true)
mirror_there c p at dev before after ids placed r others = (
  readable-append before (mirror p at ++ after) ∙ r,
  parts-append c dev before (mirror p at ++ after) (mirror-parts c p at dev ids placed after),
  with_mirror-ok c p at dev ids placed before after
      (sym (ok-append no_bytes no_bytes no_bytes c dev before after) ∙ others),
)

-- A peripheral's objects are among those of the bus, each of them shown under the central's device, both
-- sides mean the same three UUIDs, in upper or in lower case, the other objects under the device have
-- none of these, their UUIDs are strings, and the central has an open bus, the device and no path of it
-- yet. Then the central finds the service and the two characteristics at the paths where BlueZ shows
-- the objects that the peripheral has exported for them; and at the exported paths a StartNotify of the
-- one characteristic goes to `tx_StartNotify`, and a WriteValue of the other one to `rx_WriteValue`.
pub exports_found :
    (c p : Config) (at : List ℕ → List ℕ) (before after : List Object) (i : Impl)
    → SameIds c p
    → ((path : List ℕ) → starts_with (i.dev_path ++ codes "/") (at path) ≡ true)
    → i.bus ≡ true
    → no_bytes i.dev_path ≡ false
    → no_bytes i.peer_svc_path && no_bytes i.peer_tx_path && no_bytes i.peer_rx_path ≡ true
    → objects_readable before && objects_readable after ≡ true
    → objects_ok no_bytes no_bytes no_bytes c i.dev_path (before ++ after) ≡ true
    → ((central_find_gatt_paths c
          (some (record { list = before ++ (mirror p at ++ after); whole = true }))
          i).1
        ≡ true)
      × (paths_of
            (central_find_gatt_paths c
              (some (record { list = before ++ (mirror p at ++ after); whole = true }))
              i).0
          ≡ record { svc = at svc_path; tx = at tx_path; rx = at rx_path })
      × (handler_at tx_path characteristic (codes "StartNotify") ≡ some start_notify_handler)
      × (handler_at rx_path characteristic (codes "WriteValue") ≡ some write_value_handler)
unfolding handler_at table_at
exports_found c p at before after i ids placed b d empty r others =
    let os : Objects = record { list = before ++ (mirror p at ++ after); whole = true } in
    let (readable, parts, only) = mirror_there c p at i.dev_path before after ids placed r others in
    let (found, paths) =
      find_gatt_paths_exact c os i (at svc_path) (at tx_path) (at rx_path) b d empty readable parts
        only in
    (found, paths, refl, refl)
