-- ===== src/Bluez/Central/Phases.antt =====
-- The phases of the central's link, and the moves between them that a step of the machine may make.
pub mod Pumping
pub mod Steps
pub mod Refines
mod Runs
use bitchat_clone.Base.{ℕ, ◌≡◌, Bool, true, false, List, [], ◌∷◌, Option, none, some, if◌then◌else◌}
use bitchat_clone.Dbus.{Called, replied, Props, Changed}
use bitchat_clone.Bluez.{Impl}
use bitchat_clone.Bluez.Central.Pump.{Answers}
use bitchat_clone.Bluez.Central.Machine.{Event, removed, changed, replied_connect, pumped, handed}

pub data Phase : Type 0 where
  apart : Phase
  trying : Phase
  linked : Phase
  ready : Phase

-- A reply of Connect may still be awaited when the link is up.
abbrev pub phase : Impl → Phase
phase i =
    if i.connected
    then (if i.subscribed then ready else linked)
    else if i.connect_inflight
    then trying
    else apart

abbrev pub is_down : Phase → Bool
is_down apart = true
is_down trying = true
is_down linked = false
is_down ready = false

abbrev pub is_ready : Phase → Bool
is_ready ready = true
is_ready apart = false
is_ready trying = false
is_ready linked = false

-- What an event may do to the link.
pub data Move : Event → Phase → Phase → Type 0 where
  stays : {e : Event} {p : Phase} → Move e p p
  dials : {a : Answers} → a.connect ≡ true → Move (pumped a) apart trying
  subscribes : {a : Answers} → a.notify ≡ replied → Move (pumped a) linked ready
  answered : {now : ℕ} → Move (replied_connect now none) trying linked
  fails : {now : ℕ} {e : List ℕ × List ℕ} {p : Phase} → Move (replied_connect now (some e)) p apart
  comes : {s : Changed} {p : Phase} → is_down p ≡ true → Move (changed s) p linked
  leaves : {s : Changed} {p q : Phase} → is_down p ≡ false → is_down q ≡ true → Move (changed s) p q
  vanishes :
      {path : List ℕ} {p q : Phase} → is_down p ≡ false → is_down q ≡ true → Move (removed path) p q
  restarts :
      {addr : List ℕ} {now : ℕ} {filter : Props → Called} {start : Called} {p : Phase}
      → Move (handed addr now filter start) p apart

-- The moves of a list of events, in order.
pub data Walk : Phase → List Event → Phase → Type 0 where
  here : {p : Phase} → Walk p [] p
  on : {p q r : Phase} {e : Event} {es : List Event} → Move e p q → Walk q es r → Walk p (e ∷ es) r
