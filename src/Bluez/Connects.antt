-- ===== src/Bluez/Connects.antt =====
-- A central that is handed to a peripheral, over what BlueZ carries, until a frame passes.
mod Runs
use bitchat_clone.Base.{
  ℕ, ◌+◌, ◌≡◌, ◌≢◌, refl, ap, sym, subst, ◌∙◌, Bool, true, false, ◌&&◌, List, [], ◌∷◌, ◌++◌, Option,
  none, some, if◌then◌else◌, arith, leb, both_true, ◌==◌,
}
use bitchat_clone.Text.{codes, str_eq, str_eq_refl, starts_with}
use bitchat_clone.Dbus.{
  Called, replied, refused, bytes, Props, Object, Objects, Changed, Hears, Exact,
}
use bitchat_clone.Bluez.{central, peripheral, Config, Impl, no_bytes, ready_as, elapsed}
use bitchat_clone.Bluez.Central.{write_options, central_write}
use bitchat_clone.Bluez.Central.Gatt.{Paths, paths_of}
use bitchat_clone.Bluez.Central.Gatt.Parts.{objects_readable}
use bitchat_clone.Bluez.Central.Gatt.Exact.{objects_ok}
use bitchat_clone.Bluez.Central.Scan.{Device, has_peer, whole_or_none}
use bitchat_clone.Bluez.Central.Scan.Taken.{first_peer}
use bitchat_clone.Bluez.Central.Signals.{heard, on_connect_reply}
use bitchat_clone.Bluez.Central.Pump.{Answers, central_pump, target, handover}
use bitchat_clone.Bluez.Central.Machine.{Machine, on_reply, run}
use bitchat_clone.Bluez.Central.Subscribing.{reply-Connected}
use bitchat_clone.Bluez.Central.Reach.{
  Fresh, handover-Fresh, first_pump, handed_up, run-handed_up, handover_reaches,
}
use bitchat_clone.Bluez.Central.Opened.{Opened, Shows, pump-Opened, pump-no_paths}
use bitchat_clone.Bluez.Peripheral.{
  svc_path, tx_path, rx_path, characteristic, Exports, start_peripheral, tx_StartNotify,
  rx_WriteValue, send_peripheral_impl, emit_value_props_changed_ay,
}
use bitchat_clone.Bluez.Peripheral.Relay.{no_offset, relay, relayed, write_arrives, notify_emits}
use bitchat_clone.Bluez.Air.{heard-none}
use bitchat_clone.Bluez.Peripheral.Tables.{Handler, write_value_handler, table_at, handler_at}
use bitchat_clone.Bluez.Mirror.{mirror, SameIds, mirror_there}

-- What the handler of a write answers; BlueZ may add options of its own.
abbrev pub written : Option Handler → Props → List ℕ → Props → Called
written (some write_value_handler) extra f opts = relay extra [] f opts
written _ extra f opts = refused (codes "org.freedesktop.DBus.Error.UnknownMethod") []

-- A write to the path where BlueZ shows the peripheral's characteristic goes to what the peripheral has
-- exported there.
abbrev pub Routes : (List ℕ → List ℕ) → Props → (List ℕ → List ℕ → Props → Called) → Type 0
Routes at extra call =
    (f : List ℕ) (opts : Props)
    → call (at rx_path) f opts
      ≡ written (handler_at rx_path characteristic (codes "WriteValue")) extra f opts

-- The bus of the central is open, and it answers: the first pump comes when the scan and the connection
-- are due, its scan shows the peer, the call of Connect is submitted, and StartNotify is answered in
-- the second pump.
pub record Answered (m : Machine) (addr : List ℕ) (now : ℕ) (a1 a2 : Answers)
    (found : List (List ℕ × Device)) : Type 0 where
  pub bus : m.impl.bus ≡ true
  pub address : no_bytes addr ≡ false
  pub scanned : whole_or_none (target addr m.cfg) a1.scan ≡ some found
  pub seen : no_bytes (first_peer (target addr m.cfg) found) ≡ false
  pub scan_due : leb m.impl.refresh_min_interval_ms (elapsed a1.scan_ms 0) ≡ true
  pub connect_due : leb (now + 300) a1.connect_ms ≡ true
  pub submitted : a1.connect ≡ true
  pub subscribes : a2.notify ≡ replied

reply-paths_of : (now : ℕ) (i : Impl) → paths_of (on_reply now none i) ≡ paths_of i
unfolding on_connect_reply
reply-paths_of now i = ground arith

-- The central after the handover: it has the device and the paths.
handover_opens :
    (m : Machine) (addr : List ℕ) (now now' : ℕ) (filter : Props → Called) (start : Called)
    (a1 a2 : Answers) (found : List (List ℕ × Device)) (os : Objects) (paths : Paths)
    → Answered m addr now a1 a2 found
    → a2.gatt ≡ some os
    → Shows (target addr m.cfg) (first_peer (target addr m.cfg) found) paths os
    → Opened
        (first_peer (target addr m.cfg) found)
        paths
        (run m (handed_up addr now now' filter start a1 a2)).impl
handover_opens m addr now now' filter start a1 a2 found os paths h g shown =
    let cfg = target addr m.cfg in
    let dev = first_peer cfg found in
    let i = handover m.cfg addr now filter start m.impl in
    let fresh = handover-Fresh m.cfg addr now filter start m.impl h.bus in
    let has : has_peer cfg.peer_addr ≡ true = ground (arith, h.address) in
    let waiting =
      first_pump cfg now a1 found m.impl.refresh_min_interval_ms i fresh has h.scanned h.seen
        h.scan_due h.connect_due h.submitted in
    subst (Opened dev paths) (sym (run-handed_up m addr now now' filter start a1 a2 h.bus)) (
      pump-Opened cfg a2 os dev paths _ (reply-Connected now' dev _ waiting) h.seen
        (reply-paths_of now' (central_pump cfg a1 i)
          ∙ pump-no_paths cfg a1 i fresh.bus fresh.connected)
        g shown)

-- A peripheral that has started and whose StartNotify has been called.
abbrev pub notifying_peer : Exports → Impl → Impl
notifying_peer e q = (tx_StartNotify (start_peripheral e q).0).0

peer_open :
    (e : Exports) (q : Impl)
    → (start_peripheral e q).1 ≡ true
    → ((notifying_peer e q).bus ≡ true) × ((notifying_peer e q).notifying ≡ true)
unfolding start_peripheral tx_StartNotify
peer_open e q h = (ground arith, refl)

no_bytes_under :
    (dev path : List ℕ) → starts_with (dev ++ codes "/") path ≡ true → no_bytes path ≡ false
no_bytes_under [] [] h = absurd (cc h)
no_bytes_under (c ∷ cs) [] h = absurd (cc h)
no_bytes_under dev (b ∷ bs) h = refl

routed_write :
    (at : List ℕ → List ℕ) (extra : Props) (call : List ℕ → List ℕ → Props → Called) (f : List ℕ)
    (i : Impl)
    → Routes at extra call
    → i.peer_rx_path ≡ at rx_path
    → central_write (relay extra) f i ≡ true
    → central_write call f i ≡ true
unfolding central_write handler_at table_at
routed_write at extra call f i routes e w =
    let there : call i.peer_rx_path f write_options ≡ relay extra [] f write_options =
      ap (λ path. call path f write_options) e ∙ routes f write_options in
    ground (arith, there)

-- An object under a device is not the root object.
below_not_root :
    (dev path : List ℕ)
    → no_bytes dev ≡ false
    → starts_with (dev ++ codes "/") path ≡ true
    → path ≢ codes "/"
below_not_root [] path e h p = absurd (cc e)
below_not_root (c ∷ []) path e h p =
    let longer =
      both_true (c == b'/') false (subst (λ w. starts_with (c ∷ codes "/") w ≡ true) p h) in
    absurd (cc longer.1)
below_not_root (c ∷ d ∷ cs) path e h p =
    let longer =
      both_true (c == b'/') false
        (subst (λ w. starts_with (c ∷ d ∷ (cs ++ codes "/")) w ≡ true) p h) in
    absurd (cc longer.1)

-- A central on an open bus that is handed to an address, and a peripheral that has started with the
-- same three UUIDs, in upper or in lower case. BlueZ shows the peripheral's objects to the central
-- under the device that the scan takes for the address, and no other object there has one of the
-- UUIDs, the UUIDs being strings; the calls of the central are answered as in `Answered`, and that of
-- StartNotify has reached the peripheral's handler; BlueZ takes a write to what the peripheral has
-- exported at that path (`Routes`) and adds no offset to it; and the bus takes for a subscription
-- exactly the object that its rule names. Then, after the handover, a pump, the reply of Connect and
-- a second pump, both links are ready, and any frame that is not empty passes from the central to the
-- peripheral: what the central writes goes to `rx_WriteValue`, which hands on exactly the frame. What
-- the peripheral notifies is on the bus with exactly the frame, but the central's subscription takes
-- the signals of the root object only: nothing is handed on, and the central is as it was.
pub handover_connects :
    (m : Machine) (addr : List ℕ) (now now' : ℕ) (filter : Props → Called) (start : Called)
    (a1 a2 : Answers) (found : List (List ℕ × Device)) (p : Config) (e : Exports) (q : Impl)
    (at : List ℕ → List ℕ) (before after : List Object) (extra : Props)
    (call : List ℕ → List ℕ → Props → Called) (hears : Hears) (f : List ℕ)
    → Answered m addr now a1 a2 found
    → (start_peripheral e q).1 ≡ true
    → SameIds (target addr m.cfg) p
    → ((path : List ℕ)
        → starts_with (first_peer (target addr m.cfg) found ++ codes "/") (at path) ≡ true)
    → a2.gatt ≡ some (record { list = before ++ (mirror p at ++ after); whole = true })
    → objects_readable before && objects_readable after ≡ true
    → objects_ok no_bytes no_bytes no_bytes
        (target addr m.cfg)
        (first_peer (target addr m.cfg) found)
        (before ++ after)
      ≡ true
    → Routes at extra call
    → no_offset extra ≡ true
    → Exact hears
    → no_bytes f ≡ false
    → (ready_as central (some (run m (handed_up addr now now' filter start a1 a2)).impl) ≡ true)
      × (ready_as peripheral (some (notifying_peer e q)) ≡ true)
      × (central_write call f (run m (handed_up addr now now' filter start a1 a2)).impl ≡ true)
      × ((rx_WriteValue (relayed extra f write_options)).1 ≡ some f)
      × (changed : Changed) × (emit_value_props_changed_ay (notifying_peer e q).bus tx_path f
          ≡ some changed)
      × (changed.props ≡ (codes "Value", bytes f) ∷ [])
      × (heard hears
            (target addr m.cfg)
            (record changed { path = at tx_path })
            (run m (handed_up addr now now' filter start a1 a2)).impl
          ≡ ((run m (handed_up addr now now' filter start a1 a2)).impl, none))
handover_connects m addr now now' filter start a1 a2 found p e q at before after extra call hears f
      h up ids placed g r others routes plain exact full =
    let cfg = target addr m.cfg in
    let dev = first_peer cfg found in
    let os : Objects = record { list = before ++ (mirror p at ++ after); whole = true } in
    let paths : Paths = record { svc = at svc_path; tx = at tx_path; rx = at rx_path } in
    let (readable, parts, only) = mirror_there cfg p at dev before after ids placed r others in
    let shown : Shows cfg dev paths os = record {
      readable = readable;
      parts = parts;
      only = only;
    } in
    let ready =
      handover_reaches m addr now now' filter start a1 a2 found os h.bus h.address h.scanned h.seen
        h.scan_due h.connect_due h.submitted g readable parts h.subscribes in
    let opened = handover_opens m addr now now' filter start a1 a2 found os paths h g shown in
    let c = (run m (handed_up addr now now' filter start a1 a2)).impl in
    let (bus, notifying) = peer_open e q up in
    let at_rx : c.peer_rx_path ≡ at rx_path = ap (λ (w : Paths). w.rx) opened.found in
    let (wrote, got) =
      write_arrives c f extra opened.bus
        (ap no_bytes at_rx ∙ no_bytes_under dev (at rx_path) (placed rx_path)) full plain in
    let (changed, emitted, _, carried) =
      notify_emits (λ s. true) (notifying_peer e q) f bus notifying full in
    (
      ready,
      notifying,
      routed_write at extra call f c routes at_rx wrote,
      got,
      changed,
      emitted,
      carried,
      heard-none hears cfg (record changed { path = at tx_path }) c exact
          (below_not_root dev (at tx_path) h.seen (placed tx_path)),
    )
