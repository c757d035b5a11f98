-- ===== src/Bluez/Roles.antt =====
-- The facade with its roles: `start` and `send` with what start_central, start_peripheral,
-- send_central_impl and send_peripheral_impl do.
mod Runs
use bitchat_clone.Base.{
  ℕ, ◌≡◌, refl, sym, ◌∙◌, Bool, true, false, not, ◌&&◌, ◌||◌, List, [], ◌∷◌, Option, none, some,
  if◌then◌else◌, arith, Bool-cases, inl, inr,
}
use bitchat_clone.Dbus.{Called, replied, bad_message, refused, Props, Changed}
use bitchat_clone.Bluez.{
  Role, central, peripheral, Config, Impl, Bluez, start, send, stop, link_ready, or_made,
  after_role, no_bytes,
}
use bitchat_clone.Bluez.Central.{
  start_discovery, central_set_discovery_filter, central_write, send_central_impl,
}
use bitchat_clone.Bluez.Central.Signals.{added_rule, removed_rule, changed_rule}
use bitchat_clone.Bluez.Central.Pump.{Opening, subscribed_all, start_central}
use bitchat_clone.Bluez.Peripheral.{
  Exports, start_peripheral, send_peripheral_impl, peripheral_can_notify,
}

-- What the bus answers to either role.
pub record Bus : Type 0 where
  pub opening : Opening
  pub exports : Exports
  pub write : List ℕ → List ℕ → Props → Called
  pub signal : Changed → Bool

abbrev pub start_as : Role → Config → Bus → Impl → Impl × Bool
start_as central cfg b = start_central cfg b.opening
start_as peripheral cfg b = start_peripheral b.exports

-- `BluezTransport::start`
unfoldable pub start_on : Bus → ℕ → Bluez → Bluez × Bool
start_on b mtu t = start (start_as t.cfg.role t.cfg b) mtu t

-- The calls of the bus are WriteValue and the sending of a signal.
abbrev pub send_as :
    Role → (List ℕ → List ℕ → Props → Called) → (Changed → Bool) → Option Impl → List ℕ → Bool
send_as role write signal none f = false
send_as central write signal (some i) f = send_central_impl write i f
send_as peripheral write signal (some i) f = send_peripheral_impl signal i f

-- `BluezTransport::send`
unfoldable pub send_on : Bus → List ℕ → Bluez → Bool
send_on b f t = send (send_as t.cfg.role b.write b.signal t.impl) f t

-- Whether each call that the role cannot start without succeeds.
abbrev pub can_start : Role → Bus → Bool
can_start central b =
    b.opening.opened
    && (b.opening.matches added_rule
        && b.opening.matches removed_rule
        && b.opening.matches changed_rule)
can_start peripheral b =
    b.exports.opened && b.exports.object_manager && b.exports.service && b.exports.tx
    && b.exports.rx && b.exports.application && b.exports.advertisement_object
    && b.exports.advertisement

abbrev pub has_bus : Option Impl → Bool
has_bus none = false
has_bus (some i) = i.bus

discovery-bus : (called : Called) (i : Impl) → (start_discovery called i).0.bus ≡ i.bus
unfolding start_discovery
discovery-bus replied i = ground arith
discovery-bus bad_message i = ground arith
discovery-bus (refused name message) i = ground arith

filter-bus :
    (call : Props → Called) (cfg : Config) (i : Impl)
    → (central_set_discovery_filter call cfg i).0.bus ≡ i.bus
unfolding central_set_discovery_filter
filter-bus call cfg i = ground arith

central-bus :
    (cfg : Config) (o : Opening) (i : Impl)
    → ((start_central cfg o i).1 ≡ (o.opened && subscribed_all o.matches))
      × ((start_central cfg o i).0.bus ≡ o.opened)
unfolding start_central
central-bus cfg o i =
    let i' : Impl = record i { bus = o.opened } in
    (
      ground arith,
      ground (
        arith,
        discovery-bus o.start (central_set_discovery_filter o.filter cfg i').0,
        filter-bus o.filter cfg i',
      ),
    )

-- What the start of a role answers, and that it then has the bus.
role-bus :
    (role : Role) (cfg : Config) (b : Bus) (i : Impl)
    → ((start_as role cfg b i).1 ≡ can_start role b)
      × (can_start role b ≡ true → (start_as role cfg b i).0.bus ≡ true)
unfolding start_peripheral
role-bus central cfg b i =
    let (answer, bus) = central-bus cfg b.opening i in (answer, λ h. bus ∙ ground arith)
role-bus peripheral cfg b i = (refl, λ h. ground arith)

after_role-bus :
    (t : Bluez) (w : Impl × Bool) (c : Bool)
    → t.running ≡ false
    → w.1 ≡ c
    → (c ≡ true → w.0.bus ≡ true)
    → ((after_role t w).1 ≡ c)
      × ((after_role t w).0.running ≡ c)
      × (has_bus (after_role t w).0.impl ≡ c)
after_role-bus t (i, true) c h e k = (e, e, k (sym e) ∙ e)
after_role-bus t (i, false) c h e k = (e, h ∙ e, e)

-- Starting a transport that does not run answers whether every call that the role cannot do without
-- succeeds; if so it runs, with Impl and an open bus, and otherwise it does neither.
pub start_all_or_nothing :
    (b : Bus) (mtu : ℕ) (t : Bluez)
    → t.running ≡ false
    → ((start_on b mtu t).1 ≡ can_start t.cfg.role b)
      × ((start_on b mtu t).0.running ≡ can_start t.cfg.role b)
      × (has_bus (start_on b mtu t).0.impl ≡ can_start t.cfg.role b)
unfolding start_on start
start_all_or_nothing b mtu t h =
    let i = or_made t.impl in
    let (answer, bus) = role-bus t.cfg.role t.cfg b i in
    let after =
      after_role-bus (record t { attached = true; mtu = mtu }) (start_as t.cfg.role t.cfg b i)
        (can_start t.cfg.role b) h answer bus in
    ground arith
