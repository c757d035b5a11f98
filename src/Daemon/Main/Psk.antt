-- ===== src/Daemon/Main/Psk.antt =====
-- The two readings of BITCHAT_PSK: the one that chooses the cipher, and the one of the key exchange.
use bitchat_clone.Base.{
  ℕ, ◌+◌, ◌-◌, ◌<◌, ◌≡◌, if◌then◌else◌, refl, ap, ◌∙◌, Bool, true, false, ◌&&◌, List, [], ◌∷◌,
  Option, none, some, arith, length, take_all,
}
use mathlib.Core.Path.{ap₂}
use bitchat_clone.Text.{
  codes, str_eq, is_xdigit, in_blank_tab, find_first_not_of, find_last_not_of, trim,
}
use bitchat_clone.Ctrl.{
  Hello, new_hello, accepted, cap_aead_psk_supported, encode_hello, parse_hello,
}
use bitchat_clone.Ctrl.RoundTrip.{hello_of, parse_hello-encode_hello}
use bitchat_clone.Aead.{PskAead}
use bitchat_clone.Aead.Noop.{noop_aead}
use bitchat_clone.Aead.Sodium.{
  Primitives, Cipher, new_cipher, checked_key, check_and_init_from_env, sodium_aead,
}
use bitchat_clone.Chat.{ChatService, Kdf}
use bitchat_clone.Chat.Hello
use bitchat_clone.Chat.Hello.{
  Settings, Environment, Started, started, refused, thrown, settings_for, on_edge, hello_frame,
}
use bitchat_clone.Daemon.Main.Hex.{Spells, spelled, spelled_hex}
use bitchat_clone.Daemon.Main.{
  Variables, Wiring, uncaught, exit_with, new_service, wire, run_wired, main,
}
use bitchat_clone.Chat.Psk.{
  key, out_of_range, is_hex_str, all_xdigit, decode_hex, decode_psk, parse_psk_env,
}

xdigit_not_blank : (c : ℕ) → is_xdigit c ≡ true → in_blank_tab c ≡ false
unfolding is_xdigit
xdigit_not_blank c h = ground arith

first_xdigit :
    (c : ℕ) (cs : List ℕ)
    → all_xdigit (c ∷ cs) ≡ true
    → find_first_not_of in_blank_tab (c ∷ cs) ≡ some 0
unfolding find_first_not_of
first_xdigit c cs h = rw (xdigit_not_blank c (ground arith)) refl

last_xdigit :
    (c : ℕ) (cs : List ℕ)
    → all_xdigit (c ∷ cs) ≡ true
    → find_last_not_of in_blank_tab (c ∷ cs) ≡ some (length cs)
unfolding find_last_not_of
last_xdigit c [] h = rw (xdigit_not_blank c (ground arith)) refl
last_xdigit c (d ∷ cs) h = rw (last_xdigit d cs (ground arith)) refl

trim_xdigit :
    (c : ℕ) (cs : List ℕ) → all_xdigit (c ∷ cs) ≡ true → trim in_blank_tab (c ∷ cs) ≡ some (c ∷ cs)
unfolding trim
trim_xdigit c cs h =
    rw (first_xdigit c cs h, last_xdigit c cs h)
      (ap some (take_all (length cs - 0 + 1) (c ∷ cs) (omega arith)))

hex_xdigit : (s : List ℕ) → is_hex_str s ≡ true → all_xdigit s ≡ true
unfolding is_hex_str
hex_xdigit s h = ground arith

parse_hex :
    (K : Kdf) (c : ℕ) (cs : List ℕ)
    → is_hex_str (c ∷ cs) ≡ true
    → parse_psk_env K (some (c ∷ cs)) ≡ key (decode_hex (c ∷ cs))
unfolding parse_psk_env decode_psk
parse_hex K c cs h = rw (trim_xdigit c cs (hex_xdigit (c ∷ cs) h), h) refl

checked_size :
    (P : Primitives) (out : List ℕ)
    → length out ≡ 32
    → checked_key P (some out) ≡ some (new_cipher out)
checked_size P out n = ground arith

checked_other : (P : Primitives) (out : List ℕ) → length out < 32 → checked_key P (some out) ≡ none
checked_other P out n = ground arith

spelled_parse :
    (K : Kdf) (s bs : List ℕ) (b : ℕ) → Spells s (b ∷ bs) → parse_psk_env K (some s) ≡ key (b ∷ bs)
spelled_parse K [] bs b h = absurd h
spelled_parse K (c ∷ cs) bs b h =
    parse_hex K c cs (spelled_hex (c ∷ cs) (b ∷ bs) h) ∙ ap key (spelled (c ∷ cs) (b ∷ bs) h).0

-- A PSK that spells 32 bytes in hexadecimal digits, of either case, for which libsodium's decoder
-- gives these bytes: the daemon takes the cipher with them as its key, and the key exchange reads the
-- same bytes.
pub psk_of_64_digits :
    (P : Primitives) (K : Kdf) (s bs : List ℕ)
    → Spells s bs
    → length bs ≡ 32
    → P.hex2bin 32 s ≡ some bs
    → (check_and_init_from_env P (some s) ≡ some (new_cipher bs))
      × (parse_psk_env K (some s) ≡ key bs)
unfolding check_and_init_from_env
psk_of_64_digits P K s [] h n e = absurd (omega (arith, n))
psk_of_64_digits P K s (b ∷ bs) h n e =
    (ap (checked_key P) e ∙ checked_size P (b ∷ bs) n, spelled_parse K s bs b h)

-- Only blanks and tabs.
abbrev pub all_blank : List ℕ → Bool
all_blank [] = true
all_blank (c ∷ cs) = in_blank_tab c && all_blank cs

blank_first : (s : List ℕ) → all_blank s ≡ true → find_first_not_of in_blank_tab s ≡ none
unfolding find_first_not_of
blank_first [] h = refl
blank_first (c ∷ cs) h = ground (arith, blank_first cs)

blank_trim : (s : List ℕ) → all_blank s ≡ true → trim in_blank_tab s ≡ none
unfolding trim
blank_trim s h = rw (blank_first s h) refl

blank_psk :
    (K : Kdf) (c : ℕ) (cs : List ℕ)
    → all_blank (c ∷ cs) ≡ true
    → parse_psk_env K (some (c ∷ cs)) ≡ out_of_range
unfolding parse_psk_env decode_psk
blank_psk K c cs h = rw (blank_trim (c ∷ cs) h) refl

start_blank :
    (K : Kdf) (A : PskAead) (env : Environment) (tx_started : Settings → Bool) (bluez : Bool)
    (na : List ℕ) (s : ChatService A.Cipher) (served : Bool)
    → parse_psk_env K env.psk ≡ out_of_range
    → tx_started (settings_for env s.mtu_payload) ≡ true
    → exit_with served (Hello.start K A env tx_started bluez na s) ≡ uncaught
unfolding Hello.start
start_blank K A env tx_started bluez na s served e t = rw (t, e) refl

wired_blank :
    (P : Primitives) (K : Kdf) (strtoul : List ℕ → ℕ × List ℕ) (tx_started : Settings → Bool)
    (na : List ℕ) (served : Bool) (v : Variables) (w : Wiring) (cipher : Option Cipher)
    → parse_psk_env K v.chat.psk ≡ out_of_range
    → tx_started (settings_for v.chat w.mtu_payload) ≡ true
    → run_wired P K strtoul tx_started na served v w cipher ≡ uncaught
unfolding new_service
wired_blank P K strtoul tx_started na served v w none e t =
    start_blank K noop_aead v.chat tx_started _ na _ served e t
wired_blank P K strtoul tx_started na served v w (some c) e t =
    start_blank K (sodium_aead P) v.chat tx_started _ na _ served e t

-- A BITCHAT_PSK of blanks and tabs only, but not empty, ends the daemon with an exception, once its
-- transport has started.
pub main_blank_psk :
    (P : Primitives) (K : Kdf) (strtoul : List ℕ → ℕ × List ℕ) (tx_started : Settings → Bool)
    (na : List ℕ) (served : Bool) (v : Variables) (c : ℕ) (cs : List ℕ)
    → v.chat.psk ≡ some (c ∷ cs)
    → all_blank (c ∷ cs) ≡ true
    → tx_started (settings_for v.chat (wire P strtoul v).mtu_payload) ≡ true
    → main P K strtoul tx_started na served v ≡ uncaught
unfolding main
main_blank_psk P K strtoul tx_started na served v c cs p b t =
    wired_blank P K strtoul tx_started na served v (wire P strtoul v) (wire P strtoul v).cipher
      (ap (parse_psk_env K) p ∙ blank_psk K c cs b) t

-- What a HELLO says of the sender's capabilities.
abbrev pub Says : List ℕ → ℕ → Type 0
Says f caps =
    (h : Hello) × (parse_hello f new_hello ≡ accepted h) × (h.has_caps ≡ true) × (h.caps ≡ caps)

start_keyed :
    (K : Kdf) (env : Environment) (tx_started : Settings → Bool) (na : List ℕ)
    (s : ChatService (Unit {0})) (b : ℕ) (bs : List ℕ)
    → parse_psk_env K env.psk ≡ key (b ∷ bs)
    → tx_started (settings_for env s.mtu_payload) ≡ true
    → (s' : ChatService (Unit {0})) × (Hello.start K noop_aead env tx_started true na s
        ≡ started s')
      × (s'.local_caps ≡ cap_aead_psk_supported)
      × (s'.local_has_psk ≡ true)
unfolding Hello.start
start_keyed K env tx_started na s b bs e t = (
  Hello.with_psk K noop_aead env true na true (record s {
    hello_stop = true;
    is_central = str_eq (settings_for env s.mtu_payload).role (codes "central");
  }),
  rw (t, e) refl,
  refl,
  refl,
)

-- The HELLO of a link that comes up.
caps-Says :
    (K : Kdf) (na : List ℕ) (s : ChatService (Unit {0}))
    → s.local_caps ≡ cap_aead_psk_supported
    → s.local_has_psk ≡ true
    → length na ≡ 32
    → (f : List ℕ) × (hello_frame K noop_aead true (on_edge K noop_aead false true na s) ≡ some f)
      × Says f cap_aead_psk_supported
unfolding hello_frame on_edge
caps-Says K na s caps psk size = (
  encode_hello s.local_user 1 (some na),
  ap₂ (λ c b. some (encode_hello s.local_user c (if b then some na else none))) caps psk,
  (
    hello_of s.local_user 1 (some na),
    parse_hello-encode_hello s.local_user 1 (some na) (omega arith) size,
    refl,
    refl,
  ),
)

-- A PSK that spells 1 to 31 bytes in hexadecimal digits, for which libsodium's decoder gives these
-- bytes: the daemon uses no encryption, and yet, once the transport has started, the HELLO that it
-- sends over BlueZ when the link comes up, with 32 random bytes, parses as one that says that it has.
pub short_psk_unsealed :
    (P : Primitives) (K : Kdf) (strtoul : List ℕ → ℕ × List ℕ) (tx_started : Settings → Bool)
    (na na' : List ℕ) (v : Variables) (s : List ℕ) (b : ℕ) (bs : List ℕ)
    → v.chat.psk ≡ some s
    → Spells s (b ∷ bs)
    → length (b ∷ bs) < 32
    → P.hex2bin 32 s ≡ some (b ∷ bs)
    → tx_started (settings_for v.chat (wire P strtoul v).mtu_payload) ≡ true
    → length na' ≡ 32
    → ((wire P strtoul v).cipher ≡ none)
      × ((t : ChatService (Unit {0})) × (f : List ℕ) × (Hello.start K noop_aead v.chat tx_started
              true na
              (new_service tt (wire P strtoul v).mtu_payload)
            ≡ started t)
          × (hello_frame K noop_aead true (on_edge K noop_aead false true na' t) ≡ some f)
          × Says f cap_aead_psk_supported)
unfolding wire check_and_init_from_env new_service
short_psk_unsealed P K strtoul tx_started na na' v s b bs p h n e t size =
    let (t', went, caps, psk) =
      start_keyed K v.chat tx_started na (new_service tt (wire P strtoul v).mtu_payload) b bs
        (ap (parse_psk_env K) p ∙ spelled_parse K s bs b h) t in
    let (f, sent, says) = caps-Says K na' t' caps psk size in
    (
      ap (check_and_init_from_env P) p ∙ ap (checked_key P) e ∙ checked_other P (b ∷ bs) n,
      (t', f, went, sent, says),
    )
