-- ===== src/Daemon.antt =====
-- The daemon of src/daemon/main.cpp: what `on_line` does with a line of the control socket, and what
-- `main` makes of the environment. The transport's and the service's own work is elsewhere.
pub mod Commands
pub mod Control
pub mod Main
mod Runs
use mathlib.Core.Option
use bitchat_clone.Base.{
  ℕ, ◌+◌, ◌-◌, Bool, true, false, not, ◌&&◌, ◌||◌, List, [], ◌∷◌, ◌++◌, Option, none, some,
  if◌then◌else◌, leb, ◌==◌, length, drop, map,
}
use bitchat_clone.Text.{codes, str_eq, starts_with, is_space, to_lower, trim, in_blank_tab_cr}
use bitchat_clone.Bluez.{Role, central, peripheral, Peer}
use bitchat_clone.Mac.{is_valid_mac, to_upper_mac}

-- The calls that `on_line` makes, and the answers that it prints where it makes none. `lists` comes
-- after request_candidate_refresh and has the peers that are printed.
pub data Action : Type 0 where
  quits : Action
  sets_tail : Bool → Action
  sends_nothing : Action
  sends : List ℕ → Action
  lists : List Peer → Action
  hands_over : List ℕ → Action
  bad_mac : List ℕ → Action
  unsupported : Action
  ignores : Action

abbrev pub on_message : Option (List ℕ) → Action
on_message none = sends_nothing
on_message (some msg) = sends msg

abbrev pub loud : List Peer → List Peer
loud [] = []
loud (p ∷ ps) = if p.rssi == 0 then loud ps else p ∷ loud ps

abbrev pub skip_space : List ℕ → List ℕ
skip_space [] = []
skip_space (c ∷ cs) = if is_space c then skip_space cs else c ∷ cs

abbrev pub on_address : List ℕ → Action
on_address [] = hands_over []
on_address (c ∷ cs) =
    if is_valid_mac (to_upper_mac (c ∷ cs))
    then hands_over (to_upper_mac (c ∷ cs))
    else bad_mac (to_upper_mac (c ∷ cs))

-- The arguments: whether the transport is the BlueZ one, its peers, and whether
-- BITCHAT_KEEP_ZERO_RSSI starts with 1. `g_chat` is set before the first line arrives.
unfoldable pub on_line : Bool → List Peer → Bool → List ℕ → Action
on_line bluez peers keep_zero line =
    if str_eq line (codes "QUIT")
    then quits
    else if str_eq line (codes "TAIL on")
    then sets_tail true
    else if str_eq line (codes "TAIL off")
    then sets_tail false
    else if starts_with (codes "SEND ") line
    then on_message (trim in_blank_tab_cr (drop 5 line))
    else if str_eq line (codes "PEERS")
    then (if bluez then lists (if keep_zero then peers else loud peers) else unsupported)
    else if starts_with (codes "CONNECT") line
    then (if bluez
        then on_address (skip_space (if leb 8 (length line) then drop 8 line else []))
        else unsupported)
    else if str_eq line (codes "DISCONNECT")
    then (if bluez then hands_over [] else unsupported)
    else ignores

pub data Transport : Type 0 where
  loopback : Transport
  bluez : Role → Option (List ℕ) → Option (List ℕ) → Transport

abbrev pub role_of : Option (List ℕ) → Role
role_of none = peripheral
role_of (some r) = if str_eq (map to_lower r) (codes "central") then central else peripheral

-- The values of BITCHAT_TRANSPORT, BITCHAT_ROLE, BITCHAT_ADAPTER and BITCHAT_PEER.
unfoldable pub make_transport_from_env :
    Option (List ℕ) → Option (List ℕ) → Option (List ℕ) → Option (List ℕ) → Transport
make_transport_from_env none role adapter peer = loopback
make_transport_from_env (some t) role adapter peer =
    if str_eq t (codes "bluez")
    then bluez (role_of role) adapter (Option.map to_upper_mac peer)
    else loopback

-- BITCHAT_MTU_PAYLOAD, with `strtoul`, which gives a number and the text after it.
unfoldable pub mtu_payload : (List ℕ → ℕ × List ℕ) → Option (List ℕ) → ℕ
mtu_payload strtoul none = 100
mtu_payload strtoul (some e) =
    let (v, rest) = strtoul e in if str_eq rest [] && leb 20 v && leb v 244 then v else 100
