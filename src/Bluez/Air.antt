-- ===== src/Bluez/Air.antt =====
-- Two daemons over BlueZ: the transport of one, what BlueZ carries, and the handler of the other.
use bitchat_clone.Base.{
  ℕ, ◌≡◌, ◌≢◌, inl, inr, refl, Bool-cases, ap, sym, ◌∙◌, Bool, true, false, List, Option, none,
  some, if◌then◌else◌, arith,
}
use bitchat_clone.Text.{codes}
use bitchat_clone.Aead.{PskAead}
use bitchat_clone.Dbus.{Props, Changed, Hears, Exact}
use bitchat_clone.Chat.{ChatService, Kdf}
use bitchat_clone.Chat.Receive.{Shown, log, on_rx}
use bitchat_clone.Chat.Send.{Link}
use bitchat_clone.Bluez.{
  Role, central, peripheral, Config, Impl, Bluez, no_bytes, send, deliver_rx_bytes,
}
use bitchat_clone.Bluez.Central.{write_options}
use bitchat_clone.Bluez.Central.Signals.{changed_rule, heard}
use bitchat_clone.Bluez.Peripheral.{tx_path, emit_value_props_changed_ay, rx_WriteValue}
use bitchat_clone.Bluez.Roles.{send_as}
use bitchat_clone.Bluez.Peripheral.Relay.{no_offset, relay, relayed, write_arrives, notify_emits}

-- Two daemons: one sends from its transport `near` to the transport `far` of the other, which has
-- the other role and has shown these lines.
pub record Air (Cipher : Type 0) : Type 0 where
  pub sender : ChatService Cipher
  pub near : Bluez
  pub far : Bluez
  pub receiver : ChatService Cipher
  pub shown : List Shown

-- What BlueZ adds to the options of a write, the path that the peripheral's characteristic has at the
-- central, and which signals the central's bus takes for a subscription.
pub record Radio : Type 0 where
  pub extra : Props
  pub path : List ℕ
  pub hears : Hears

module _ (R : Radio) where
  abbrev pub send_role : Role → Option Impl → List ℕ → Bool
  send_role role i f = send_as role (relay R.extra) (λ m. true) i f

  abbrev pub seen_in : Bluez → Option Changed → Option Impl → Bluez × Option (List ℕ)
  seen_in t (some m) (some j) =
      let (j', data_) = heard R.hears t.cfg (record m { path = R.path }) j in
      (record t { impl = some j' }, data_)
  seen_in t _ _ = (t, none)

  -- What the far transport makes of a frame that was sent, and what it hands to `deliver_rx_bytes`.
  abbrev pub carry : Role → Option Impl → List ℕ → Bluez → Bluez × Option (List ℕ)
  carry central i f far = (far, (rx_WriteValue (relayed R.extra f write_options)).1)
  carry peripheral none f far = (far, none)
  carry peripheral (some i) f far =
      seen_in far (emit_value_props_changed_ay i.bus tx_path f) far.impl

  module _ (K : Kdf) (A : PskAead) (env_psk : Option (List ℕ)) where
    abbrev pub shows : Air A.Cipher → ChatService A.Cipher × Shown → Air A.Cipher
    shows a (s, line) = record a { receiver = s; shown = log a.shown line }

    abbrev pub arrive : Air A.Cipher → Bluez × Option (List ℕ) → Air A.Cipher
    arrive a (far, none) = record a { far = far }
    arrive a (far, some f) =
        if deliver_rx_bytes f far
        then shows (record a { far = far }) (on_rx K A env_psk a.receiver f)
        else record a { far = far }

    unfoldable pub send_air : Air A.Cipher → List ℕ → Air A.Cipher × Bool
    send_air a f =
        if send (send_role a.near.cfg.role a.near.impl) f a.near
        then (arrive a (carry a.near.cfg.role a.near.impl f a.far), true)
        else (a, false)

    abbrev pub air_link : Link A.Cipher
    air_link = record {
      World = Air A.Cipher;
      service = λ a. a.sender;
      put_service = λ a s. record a { sender = s };
      send = send_air;
    }

-- The near one is a central that has found the peer's characteristic, and BlueZ adds no offset.
pub record IsLinked (R : Radio) {Cipher : Type 0} (a : Air Cipher) : Type 0 where
  pub has : Impl
  pub role : a.near.cfg.role ≡ central
  pub impl : a.near.impl ≡ some has
  pub bus : has.bus ≡ true
  pub found : no_bytes has.peer_rx_path ≡ false
  pub plain : no_offset R.extra ≡ true

-- The near one is a peripheral that runs and has a subscriber; its characteristic is not the root
-- object, and the bus takes for a subscription what its rule says.
pub record IsUnheard (R : Radio) {Cipher : Type 0} (a : Air Cipher) : Type 0 where
  pub has : Impl
  pub role : a.near.cfg.role ≡ peripheral
  pub impl : a.near.impl ≡ some has
  pub runs : a.near.running ≡ true
  pub bus : has.bus ≡ true
  pub notifying : has.notifying ≡ true
  pub exact : Exact R.hears
  pub elsewhere : R.path ≢ codes "/"

-- A transport that runs sends what its role sends.
pub running_send :
    (role_send : List ℕ → Bool) (f : List ℕ) (t : Bluez)
    → t.running ≡ true
    → no_bytes f ≡ false
    → send role_send f t ≡ role_send f
unfolding send
running_send role_send f t r e = ground arith

-- A frame gets across from the central.
pub crosses :
    (R : Radio) {Cipher : Type 0} (a : Air Cipher) (f : List ℕ)
    → IsLinked R a
    → no_bytes f ≡ false
    → (send_role R a.near.cfg.role a.near.impl f ≡ true)
      × (carry R a.near.cfg.role a.near.impl f a.far ≡ (a.far, some f))
crosses R a f l e =
    let (wrote, got) = write_arrives l.has f R.extra l.bus l.found e l.plain in
    (rw (l.role, l.impl) wrote, rw l.role (ap (λ data_. (a.far, data_)) got))

-- A signal that the subscription does not take leaves the far transport as it was.
pub heard-none :
    (hears : Hears) (cfg : Config) (m : Changed) (j : Impl)
    → Exact hears
    → m.path ≢ codes "/"
    → heard hears cfg m j ≡ (j, none)
unfolding heard
heard-none hears cfg m j exact other = elim (Bool-cases (hears changed_rule m.path)) [
  | inl on ↦ absurd (other (exact changed_rule m.path on))
  | inr off ↦ rw off refl
]

seen_none :
    (R : Radio) (t : Bluez) (m : Option Changed) (i : Option Impl)
    → Exact R.hears
    → R.path ≢ codes "/"
    → t.impl ≡ i
    → seen_in R t m i ≡ (t, none)
seen_none R t none none exact other e = refl
seen_none R t none (some j) exact other e = refl
seen_none R t (some m) none exact other e = refl
seen_none R t (some m) (some j) exact other e =
    ap (λ w. (record t { impl = some w.0 }, w.1))
      (heard-none R.hears t.cfg (record m { path = R.path }) j exact other)
    ∙ ap (λ o. (record t { impl = o }, none)) (sym e)

-- What a peripheral sends counts as sent, and changes nothing at the other side.
pub unheard :
    (R : Radio) (K : Kdf) (A : PskAead) (env_psk : Option (List ℕ)) (a : Air A.Cipher) (f : List ℕ)
    → IsUnheard R a
    → no_bytes f ≡ false
    → send_air R K A env_psk a f ≡ (a, true)
unfolding send_air
unheard R K A env_psk a f u e =
    let (_, _, sent, _) = notify_emits (λ m. true) u.has f u.bus u.notifying e in
    let goes : send_role R a.near.cfg.role a.near.impl f ≡ true = rw (u.role, u.impl) sent in
    let lost : carry R a.near.cfg.role a.near.impl f a.far ≡ (a.far, none) =
      rw (u.role, u.impl) (seen_none R a.far _ a.far.impl u.exact u.elsewhere refl) in
    rw (running_send (send_role R a.near.cfg.role a.near.impl) f a.near u.runs e ∙ goes)
      (ap (λ p. (arrive R K A env_psk a p, true)) lost)
