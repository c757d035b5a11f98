-- ===== src/Bluez/Central/Scan/Expected.antt =====
-- An independent description of the device that central_cold_scan takes, over the objects of the reply,
-- and what `read_objects` makes of these objects.
use bitchat_clone.Base.{
  ℕ, ◌≡◌, refl, Bool, true, false, not, ◌&&◌, ◌||◌, both_true, List, [], ◌∷◌, ◌++◌, Option, none,
  some, if◌then◌else◌,
}
use mathlib.Core.Path.{ap₂}
use bitchat_clone.Text.{codes, starts_with}
use bitchat_clone.Dbus.{Object, Objects, mac_eq, path_mac_eq}
use bitchat_clone.Bluez.{Config, no_bytes}
use bitchat_clone.Bluez.Central.Scan.{
  Device, no_device, ◌>>=◌, and_found, read_ifaces, peer_of, read_objects,
}
use bitchat_clone.Bluez.Central.Scan.Taken.{first_peer}

-- The description: the objects of the adapter's devices, and what is read of one.
abbrev pub is_device : Config → Object → Bool
is_device cfg o = starts_with (codes "/org/bluez/" ++ (cfg.adapter ++ codes "/dev_")) o.path

abbrev pub reading : Config → Object → Option Device
reading cfg o = read_ifaces cfg.svc_uuid o.ifaces no_device

abbrev pub is_read : Option Device → Bool
is_read none = false
is_read (some d) = true

-- Every device of the reply can be read.
abbrev pub readable : Config → List Object → Bool
readable cfg [] = true
readable cfg (o ∷ os) = (not (is_device cfg o) || is_read (reading cfg o)) && readable cfg os

-- The device has the peer's address, or its path has.
abbrev pub named : List ℕ → List ℕ → Option Device → Bool
named peer path none = false
named peer path (some d) = (not (no_bytes d.addr) && mac_eq d.addr peer) || path_mac_eq path peer

-- The path of the first such device, in the order of the reply.
abbrev pub first_named : Config → List ℕ → List Object → List ℕ
first_named cfg peer [] = []
first_named cfg peer (o ∷ os) =
    if is_device cfg o && named peer o.path (reading cfg o) then o.path else first_named cfg peer os

abbrev pub for_peer : Config → Option (List ℕ) → List Object → List ℕ
for_peer cfg none os = []
for_peer cfg (some []) os = []
for_peer cfg (some (c ∷ cs)) os = first_named cfg (c ∷ cs) os

abbrev pub expected : Config → Option Objects → List ℕ
expected cfg none = []
expected cfg (some os) =
    if os.whole && readable cfg os.list then for_peer cfg cfg.peer_addr os.list else []

-- One object's part in the devices that are read.
one_read :
    (cfg : Config) (peer path : List ℕ) (there : Bool) (r : Option Device)
    (rest : Option (List (List ℕ × Device))) (found : List (List ℕ × Device)) (tail : List ℕ)
    → rest ≡ some found
    → (not there || is_read r) ≡ true
    → cfg.peer_addr ≡ some peer
    → first_peer cfg found ≡ tail
    → (found' : List (List ℕ × Device)) × ((if there
          then r >>= (λ d. rest >>= and_found path d)
          else rest)
        ≡ some found')
      × (first_peer cfg found' ≡ (if there && named peer path r then path else tail))
one_read cfg peer path false r rest found tail e h p t = (found, e, t)
one_read cfg peer path true none rest found tail e h p t = absurd (cc h)
one_read cfg peer path true (some d) rest found tail e h p t = (
  (path, d) ∷ found,
  rw e refl,
  ap₂ (λ o w. if named (peer_of o) path (some d) then path else w) p t,
)

-- Where all devices can be read, the first that is the peer is the first that the description names.
pub all_read :
    (cfg : Config) (peer : List ℕ) (os : List Object)
    → readable cfg os ≡ true
    → cfg.peer_addr ≡ some peer
    → (found : List (List ℕ × Device)) × (read_objects cfg os ≡ some found)
      × (first_peer cfg found ≡ first_named cfg peer os)
unfolding read_objects
all_read cfg peer [] h p = ([], refl, refl)
all_read cfg peer (o ∷ os) h p =
    let (here, there) = both_true (not (is_device cfg o) || is_read (reading cfg o)) _ h in
    let (found, e, t) = all_read cfg peer os there p in
    one_read cfg peer o.path (is_device cfg o) (reading cfg o) (read_objects cfg os) found _ e here
      p t

one_unread :
    (path : List ℕ) (there rest_read : Bool) (r : Option Device)
    (rest : Option (List (List ℕ × Device)))
    → (rest_read ≡ false → rest ≡ none)
    → (not there || is_read r) && rest_read ≡ false
    → (if there then r >>= (λ d. rest >>= and_found path d) else rest) ≡ none
one_unread path false rest_read r rest f h = f h
one_unread path true rest_read none rest f h = refl
one_unread path true rest_read (some d) rest f h = rw (f h) refl

-- A device that cannot be read leaves nothing.
pub not_read :
    (cfg : Config) (os : List Object) → readable cfg os ≡ false → read_objects cfg os ≡ none
unfolding read_objects
not_read cfg [] h = absurd (cc h)
not_read cfg (o ∷ os) h =
    one_unread o.path (is_device cfg o) (readable cfg os) (reading cfg o) (read_objects cfg os)
      (not_read cfg os) h
