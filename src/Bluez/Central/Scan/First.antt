-- ===== src/Bluez/Central/Scan/First.antt =====
-- The scan against its description: it takes the first device that is the peer.
use bitchat_clone.Base.{
  ℕ, ◌≡◌, refl, ap, ◌∙◌, Bool, true, false, not, ◌&&◌, List, [], ◌∷◌, Option, none, some,
  if◌then◌else◌, arith, Bool-cases, inl, inr,
}
use bitchat_clone.Text.{starts_with}
use bitchat_clone.Dbus.{Object, Objects}
use bitchat_clone.Bluez.{Config, Impl, no_bytes}
use bitchat_clone.Bluez.Central.Scan.{
  Device, no_device, ◌>>=◌, and_found, read_ifaces, dev_prefix, has_peer, is_peer, read_objects,
  on_found, all_found, update, whole_or_none, central_cold_scan,
}
use bitchat_clone.Bluez.Central.Scan.Expected.{readable, for_peer, expected, all_read, not_read}
use bitchat_clone.Bluez.Central.Scan.Taken.{first_peer, kept, taken_one}

abbrev all_paths : Option (List (List ℕ × Device)) → Bool
all_paths none = true
all_paths (some []) = true
all_paths (some ((path, d) ∷ rest)) = not (no_bytes path) && all_paths (some rest)

prefix_not_empty :
    (cfg : Config) (path : List ℕ)
    → starts_with (dev_prefix cfg) path ≡ true
    → no_bytes path ≡ false
prefix_not_empty cfg [] h = ground arith
prefix_not_empty cfg (c ∷ path) h = refl

add_paths :
    (path : List ℕ) (d : Option Device) (rest : Option (List (List ℕ × Device)))
    → no_bytes path ≡ false
    → all_paths rest ≡ true
    → all_paths (d >>= (λ d. rest >>= and_found path d)) ≡ true
add_paths path none rest e h = refl
add_paths path (some d) none e h = refl
add_paths path (some d) (some rest) e h = ground arith

either_paths :
    (t : Bool) (x y : Option (List (List ℕ × Device)))
    → (t ≡ true → all_paths x ≡ true)
    → all_paths y ≡ true
    → all_paths (if t then x else y) ≡ true
either_paths true x y h k = h refl
either_paths false x y h k = k

read_objects-all_paths : (cfg : Config) (os : List Object) → all_paths (read_objects cfg os) ≡ true
unfolding read_objects
read_objects-all_paths cfg [] = refl
read_objects-all_paths cfg (o ∷ os) =
    either_paths (starts_with (dev_prefix cfg) o.path) _ _
      (λ h.
        add_paths o.path (read_ifaces cfg.svc_uuid o.ifaces no_device) _
          (prefix_not_empty cfg o.path h) (read_objects-all_paths cfg os))
      (read_objects-all_paths cfg os)

whole_or_none-all_paths :
    (cfg : Config) (reply : Option Objects) → all_paths (whole_or_none cfg reply) ≡ true
unfolding whole_or_none
whole_or_none-all_paths cfg none = refl
whole_or_none-all_paths cfg (some os) =
    either_paths os.whole _ none (λ h. read_objects-all_paths cfg os.list) refl

-- What a scan takes for its device: nothing without a peer or a whole reply.
abbrev taken : Config → Option (List (List ℕ × Device)) → List ℕ
taken cfg none = []
taken cfg (some found) = if has_peer cfg.peer_addr then first_peer cfg found else []

no_peer_one :
    (cfg : Config) (now : ℕ) (path : List ℕ) (d : Device) (i : Impl)
    → has_peer cfg.peer_addr ≡ false
    → (on_found cfg false now path d i).dev_path ≡ i.dev_path
no_peer_one cfg now path d i p = ground arith

no_peer_taken :
    (cfg : Config) (now : ℕ) (found : List (List ℕ × Device)) (i : Impl)
    → has_peer cfg.peer_addr ≡ false
    → (all_found cfg false now found i).dev_path ≡ i.dev_path
unfolding all_found
no_peer_taken cfg now [] i p = refl
no_peer_taken cfg now ((path, d) ∷ rest) i p =
    no_peer_taken cfg now rest (on_found cfg false now path d i) p ∙ no_peer_one cfg now path d i p

peer_taken :
    (cfg : Config) (now : ℕ) (found : List (List ℕ × Device)) (i : Impl)
    → has_peer cfg.peer_addr ≡ true
    → all_paths (some found) ≡ true
    → i.dev_path ≡ []
    → (all_found cfg false now found i).dev_path ≡ first_peer cfg found
unfolding all_found
peer_taken cfg now [] i p h d = d
peer_taken cfg now ((path, dv) ∷ rest) i p h d =
    let next = on_found cfg false now path dv i in
    let one = taken_one cfg now path dv i p d in
    elim (Bool-cases (is_peer cfg path dv)) [
      | inl t ↦ ground (arith, kept cfg now rest next, one)
      | inr t ↦ ground (arith, peer_taken cfg now rest next p, one)
    ]

update-taken :
    (cfg : Config) (now : ℕ) (found : Option (List (List ℕ × Device))) (i : Impl)
    → all_paths found ≡ true
    → i.dev_path ≡ []
    → (update cfg false now found i).dev_path ≡ taken cfg found
update-taken cfg now none i h d = d
update-taken cfg now (some found) i h d = elim (Bool-cases (has_peer cfg.peer_addr)) [
  | inl p ↦ ground (arith, peer_taken cfg now found i p h d)
  | inr p ↦ ground (arith, no_peer_taken cfg now found i p)
]

taken_none :
    (cfg : Config) (found : Option (List (List ℕ × Device)))
    → has_peer cfg.peer_addr ≡ false
    → taken cfg found ≡ []
taken_none cfg none p = refl
taken_none cfg (some found) p = rw p refl

taken_read :
    (cfg : Config) (peer : Option (List ℕ)) (os : List Object)
    → cfg.peer_addr ≡ peer
    → readable cfg os ≡ true
    → taken cfg (read_objects cfg os) ≡ for_peer cfg peer os
taken_read cfg none os p h = taken_none cfg (read_objects cfg os) (ap has_peer p)
taken_read cfg (some []) os p h = taken_none cfg (read_objects cfg os) (ap has_peer p)
taken_read cfg (some (c ∷ cs)) os p h =
    let (found, e, t) = all_read cfg (c ∷ cs) os h p in
    ap (taken cfg) e ∙ ap (λ b. if b then first_peer cfg found else []) (ap has_peer p) ∙ t

taken-expected :
    (cfg : Config) (reply : Option Objects)
    → taken cfg (whole_or_none cfg reply) ≡ expected cfg reply
unfolding whole_or_none
taken-expected cfg none = refl
taken-expected cfg (some os) = elim (Bool-cases os.whole) [
  | inr cut ↦ simp cut
  | inl whole ↦ elim (Bool-cases (readable cfg os.list)) [
    | inl r ↦ simp (whole, r) (taken_read cfg cfg.peer_addr os.list refl r)
    | inr r ↦ simp (whole, r, not_read cfg os.list r)
  ]
]

-- On an open bus, a scan of a central without a device takes the path of the first object of the
-- reply, in its order, that is a device of the adapter and whose address, or whose path's end, is the
-- wanted peer's (`mac_eq`, `path_mac_eq`). It takes none if there is no such device, no peer is
-- wanted, or the reply is an error, cannot be read to its end, or has a device that cannot be read.
pub central_cold_scan_eq_expected :
    (cfg : Config) (now : ℕ) (reply : Option Objects) (i : Impl)
    → i.bus ≡ true
    → i.dev_path ≡ []
    → (central_cold_scan cfg false now reply i).dev_path ≡ expected cfg reply
unfolding central_cold_scan
central_cold_scan_eq_expected cfg now reply i b d = ground (
  arith,
  update-taken cfg now (whole_or_none cfg reply) i (whole_or_none-all_paths cfg reply) d,
  taken-expected cfg reply,
)
