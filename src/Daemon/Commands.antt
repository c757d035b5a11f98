-- ===== src/Daemon/Commands.antt =====
-- What the daemon makes of the lines that the client sends.
use bitchat_clone.Base.{
  ℕ, suc, ◌≤◌, ◌≡◌, ◌≢◌, ◌⊎◌, inl, inr, refl, ap, ◌∙◌, Bool, true, false, List, [], ◌∷◌, ◌++◌,
  Option, none, some, arith, if◌then◌else◌, length, leb, drop, ◌==◌, Bool-cases, both_true, subst,
}
use mathlib.Core.Path.{ap₂}
use bitchat_clone.Text.{
  codes, str_eq, starts_with, is_space, is_xdigit, to_upper, trim, in_blank_tab_cr,
}
use bitchat_clone.Mac.{mac_chars, is_valid_mac, to_upper_mac}
use bitchat_clone.Cli.{run_cmd}
use bitchat_clone.Bluez.{Peer}
use bitchat_clone.Daemon.{
  Action, quits, sets_tail, lists, hands_over, unsupported, ignores, on_message, loud, skip_space,
  on_address, on_line, mtu_payload,
}

to_upper-to_upper : (c : ℕ) → to_upper (to_upper c) ≡ to_upper c
unfolding to_upper
to_upper-to_upper c = ground arith

to_upper_mac-to_upper_mac : (s : List ℕ) → to_upper_mac (to_upper_mac s) ≡ to_upper_mac s
to_upper_mac-to_upper_mac [] = refl
to_upper_mac-to_upper_mac (c ∷ cs) = ap₂ ◌∷◌ (to_upper-to_upper c) (to_upper_mac-to_upper_mac cs)

xdigit_no_space : (c : ℕ) → is_xdigit c ≡ true → is_space c ≡ false
unfolding is_xdigit is_space
xdigit_no_space c h = ground arith

address_lem :
    (c : ℕ) (cs : List ℕ)
    → to_upper_mac (c ∷ cs) ≡ c ∷ cs
    → is_valid_mac (c ∷ cs) ≡ true
    → on_address (c ∷ cs) ≡ hands_over (c ∷ cs)
address_lem c cs up v = rw (ap is_valid_mac up ∙ v) (ap hands_over up)

on_address_lem :
    (m : List ℕ)
    → to_upper_mac m ≡ m
    → is_valid_mac m ≡ true
    → on_address (skip_space m) ≡ hands_over m
unfolding is_valid_mac
on_address_lem [] up v = absurd (cc v)
on_address_lem (c ∷ cs) up v =
    let (_, chars) = both_true (suc (length cs) == 17) (mac_chars 0 (c ∷ cs)) v in
    let (first, _) = both_true (is_xdigit c) (mac_chars 1 cs) chars in
    rw (xdigit_no_space c first) (address_lem c cs up v)

eight_or_more : (n : ℕ) → leb 8 (suc (suc (suc (suc (suc (suc (suc (suc n)))))))) ≡ true
eight_or_more n = ground arith

-- An address that is valid in upper case is sent by the client's `connect` as such, in upper case,
-- and the daemon hands its link over to exactly that address.
pub connect_understood :
    (mac : List ℕ) (send : List ℕ → ℕ) (peers : List Peer) (keep_zero : Bool)
    → is_valid_mac (to_upper_mac mac) ≡ true
    → (run_cmd (codes "connect") (codes "connect" ∷ mac ∷ []) send
        ≡ send (codes "CONNECT " ++ to_upper_mac mac))
      × (on_line true peers keep_zero (codes "CONNECT " ++ to_upper_mac mac)
          ≡ hands_over (to_upper_mac mac))
unfolding run_cmd on_line
connect_understood mac send peers keep_zero v = (
  rw v refl,
  ap (λ b. on_address (skip_space (if b then to_upper_mac mac else [])))
        (eight_or_more (length (to_upper_mac mac)))
      ∙ on_address_lem (to_upper_mac mac) (to_upper_mac-to_upper_mac mac) v,
)

on_address_inv :
    (s mac : List ℕ) → on_address s ≡ hands_over mac → (mac ≡ []) ⊎ (is_valid_mac mac ≡ true)
on_address_inv [] mac e = inl (cc e)
on_address_inv (c ∷ cs) mac e = elim (Bool-cases (is_valid_mac (to_upper_mac (c ∷ cs)))) [
  | inl ok ↦ inr (subst (λ m. is_valid_mac m ≡ true) (cc (rw ok at e)) ok)
  | inr bad ↦ absurd (cc (rw bad at e))
]

on_message_inv : (o : Option (List ℕ)) (mac : List ℕ) → on_message o ≢ hands_over mac
on_message_inv none mac e = cc e
on_message_inv (some m) mac e = cc e

-- The tests of `on_line` as variables.
dispatch_inv :
    (quit on off send peers connect disconnect bluez : Bool) (msg address : Action)
    (list : List Peer) (mac : List ℕ)
    → msg ≢ hands_over mac
    → (address ≡ hands_over mac → (mac ≡ []) ⊎ (is_valid_mac mac ≡ true))
    → (if quit
        then quits
        else if on
        then sets_tail true
        else if off
        then sets_tail false
        else if send
        then msg
        else if peers
        then (if bluez then lists list else unsupported)
        else if connect
        then (if bluez then address else unsupported)
        else if disconnect
        then (if bluez then hands_over [] else unsupported)
        else ignores)
      ≡ hands_over mac
    → (mac ≡ []) ⊎ (is_valid_mac mac ≡ true)
dispatch_inv quit on off send peers connect disconnect bluez msg address list mac n f e =
    ground arith

-- Whatever the line, the daemon hands its link over to no address or to a valid one.
pub hands_over_valid :
    (bluez keep_zero : Bool) (peers : List Peer) (line mac : List ℕ)
    → on_line bluez peers keep_zero line ≡ hands_over mac
    → (mac ≡ []) ⊎ (is_valid_mac mac ≡ true)
unfolding on_line
hands_over_valid bluez keep_zero peers line mac e =
    dispatch_inv (str_eq line (codes "QUIT")) (str_eq line (codes "TAIL on"))
      (str_eq line (codes "TAIL off")) (starts_with (codes "SEND ") line)
      (str_eq line (codes "PEERS")) (starts_with (codes "CONNECT") line)
      (str_eq line (codes "DISCONNECT")) bluez (on_message (trim in_blank_tab_cr (drop 5 line)))
      (on_address (skip_space (if leb 8 (length line) then drop 8 line else [])))
      (if keep_zero then peers else loud peers) mac
      (on_message_inv (trim in_blank_tab_cr (drop 5 line)) mac)
      (on_address_inv (skip_space (if leb 8 (length line) then drop 8 line else [])) mac) e

-- Whatever `strtoul` answers, the frame size lies between 20 and 244.
pub mtu_payload_bounds :
    (strtoul : List ℕ → ℕ × List ℕ) (e : Option (List ℕ))
    → (20 ≤ mtu_payload strtoul e) × (mtu_payload strtoul e ≤ 244)
unfolding mtu_payload
mtu_payload_bounds strtoul none = (omega arith, omega arith)
mtu_payload_bounds strtoul (some e) = ground arith
