-- ===== src/Ctrl.antt =====
-- The HELLO control frame of include/proto/ctrl.hpp: a version and a list of type, length, value.
pub mod RoundTrip
pub mod Confusion
mod Runs
use bitchat_clone.Base.{
  ℕ, zero, suc, ◌+◌, ◌*◌, ◌/◌, ◌%◌, ◌^◌, ◌||◌, Bool, true, false, not, List, [], ◌∷◌, ◌++◌, Option,
  none, some, ltb, ◌==◌, if◌then◌else◌, length, take, drop, get_or, replicate,
}

abbrev pub msg_ctrl_hello : ℕ
msg_ctrl_hello = 0x01

abbrev pub hello_ver : ℕ
hello_ver = 0x01

abbrev pub t_user_id : ℕ
t_user_id = 0x01

abbrev pub t_caps : ℕ
t_caps = 0x02

abbrev pub t_na32 : ℕ
t_na32 = 0x12

abbrev pub cap_aead_psk_supported : ℕ
cap_aead_psk_supported = 1

abbrev pub user_id_max : ℕ
user_id_max = 64

pub record Hello : Type 0 where
  pub user_id : List ℕ
  pub has_caps : Bool
  pub caps : ℕ
  pub has_na32 : Bool
  pub na32 : List ℕ

-- `Hello h{}`
abbrev pub new_hello : Hello
new_hello = record {
  user_id = [];
  has_caps = false;
  caps = 0;
  has_na32 = false;
  na32 = replicate 32 0;
}

-- Least significant byte first.
abbrev pub le32 : ℕ → List ℕ
le32 v = (v % 256) ∷ (v / 2 ^ 8 % 256) ∷ (v / 2 ^ 16 % 256) ∷ (v / 2 ^ 24 % 256) ∷ []

-- The bytes are disjoint, so `|` is `+`.
abbrev pub from_le32 : List ℕ → ℕ
from_le32 v = get_or v 0 0 + get_or v 1 0 * 2 ^ 8 + get_or v 2 0 * 2 ^ 16 + get_or v 3 0 * 2 ^ 24

abbrev pub user_tlv : List ℕ → List ℕ
user_tlv user =
    let uid_len = if ltb user_id_max (length user) then user_id_max else length user in
    if ltb 0 uid_len then t_user_id ∷ 0x00 ∷ (uid_len % 256) ∷ take uid_len user else []

-- `nullptr` is `none`; the source reads 32 bytes from the pointer.
abbrev pub na32_tlv : Option (List ℕ) → List ℕ
na32_tlv none = []
na32_tlv (some na) = t_na32 ∷ 0x00 ∷ 0x20 ∷ take 32 na

unfoldable pub encode_hello : List ℕ → ℕ → Option (List ℕ) → List ℕ
encode_hello user caps na32 =
    msg_ctrl_hello
    ∷ hello_ver
    ∷ (user_tlv user ++ (t_caps ∷ 0x00 ∷ 0x04 ∷ (le32 caps ++ na32_tlv na32)))

-- `accepted` is `return true`, `malformed` is `return false` with what `h` holds by then.
-- `stuck` is no value of the source: the loop ran out of fuel.
pub data Parsed : Type 0 where
  accepted : Hello → Parsed
  malformed : Hello → Parsed
  stuck : Parsed

-- The switch on the type of one entry; `none` is its `return false`.
unfoldable pub take_tlv : ℕ → ℕ → List ℕ → Hello → Option Hello
take_tlv t len v h =
    if t == t_user_id
    then (if (len == 0) || ltb user_id_max len
        then none
        else some (record h { user_id = take len v }))
    else if t == t_caps
    then (if len == 4 then some (record h { has_caps = true; caps = from_le32 v }) else none)
    else if t == t_na32
    then (if len == 32 then some (record h { has_na32 = true; na32 = take 32 v }) else none)
    else some h

-- `return false` in the switch, or the rest of the loop.
abbrev pub or_malformed : Hello → Option Hello → (Hello → Parsed) → Parsed
or_malformed h none k = malformed h
or_malformed h (some h') k = k h'

-- The loop on the bytes from index `i` on. It stops when fewer than three are left.
unfoldable pub tlv_loop : ℕ → List ℕ → Hello → Parsed
tlv_loop zero rest h = stuck
tlv_loop (suc fuel) (t ∷ hi ∷ lo ∷ v) h =
    let len = hi * 256 + lo in
    let next = or_malformed h (take_tlv t len v h) (tlv_loop fuel (drop len v)) in
    if ltb (length v) len then malformed h else next
tlv_loop (suc fuel) _ h = accepted h

-- An entry takes three bytes at least, so as many rounds as there are bytes are enough.
unfoldable pub parse_hello : List ℕ → Hello → Parsed
parse_hello buf h =
    if ltb (length buf) 2
      || not (get_or buf 0 0 == msg_ctrl_hello)
      || not (get_or buf 1 0 == hello_ver)
    then malformed h
    else tlv_loop (suc (length buf)) (drop 2 buf) h
