-- ===== src/Daemon/Main/Runs.antt =====
-- Daemons with a good, a short and a blank BITCHAT_PSK.
use bitchat_clone.Base.{
  ℕ, zero, suc, ◌≡◌, inl, inr, refl, true, false, List, [], ◌∷◌, ◌++◌, none, some, if◌then◌else◌,
  replicate, arith,
}
use bitchat_clone.Text.{codes, str_eq}
use bitchat_clone.Ctrl.{cap_aead_psk_supported}
use bitchat_clone.Aead.Noop.{noop_aead}
use bitchat_clone.Aead.Sodium.{Primitives, new_cipher, check_and_init_from_env}
use bitchat_clone.Chat.{ChatService, Kdf}
use bitchat_clone.Chat.Psk.{key, parse_psk_env}
use bitchat_clone.Chat.Hello
use bitchat_clone.Chat.Hello.{Started, started, on_edge, hello_frame}
use bitchat_clone.Daemon.Main.{Variables, uncaught, new_service, wire, main}
use bitchat_clone.Daemon.Main.Hex.{IsDigit, Spells}
use bitchat_clone.Daemon.Main.Psk.{Says, psk_of_64_digits, main_blank_psk, short_psk_unsealed}

-- Two texts with a digit of each kind, and the bytes that they spell.
abbrev digits : List ℕ
digits = codes "0aF9" ++ replicate 60 b'0'

abbrev digits_bytes : List ℕ
digits_bytes = 10 ∷ 249 ∷ replicate 30 0

abbrev few : List ℕ
few = codes "0aF9"

abbrev few_bytes : List ℕ
few_bytes = 10 ∷ 249 ∷ []

-- Of libsodium only the decoding of these two counts here.
abbrev hex_only : Primitives
hex_only = record {
  encrypt = λ k n ad m. none;
  decrypt = λ k n ad c. none;
  hex2bin = λ cap s.
      if str_eq s digits then some digits_bytes else if str_eq s few then some few_bytes else none;
}

-- Twice as many zeros.
doubled : ℕ → List ℕ
doubled zero = []
doubled (suc n) = b'0' ∷ b'0' ∷ doubled n

abbrev zero_digit : IsDigit b'0' 0
zero_digit = inl (omega arith, refl)

zeros_spelled : (n : ℕ) → Spells (doubled n) (replicate n 0)
unfolding doubled
zeros_spelled zero = tt
zeros_spelled (suc n) = ((0, 0, zero_digit, zero_digit, refl), zeros_spelled n)

few_spelled : (s bs : List ℕ) → Spells s bs → Spells (b'0' ∷ b'a' ∷ b'F' ∷ b'9' ∷ s) (10 ∷ 249 ∷ bs)
few_spelled s bs h = (
  (0, 10, zero_digit, inr (omega arith, omega arith, inl refl), refl),
  ((15, 9, inr (omega arith, omega arith, inr refl), inl (omega arith, refl), refl), h),
)

abbrev kdf : Kdf
kdf = record { base642bin = λ cap s. none; extract = λ salt ikm. none; expand = λ prk ctx n. none }

abbrev variables : List ℕ → Variables
variables psk = record {
  log_level = none;
  adapter = none;
  peer = none;
  mtu_payload = none;
  chat = record { transport = some (codes "bluez"); role = none; psk = some psk; user_id = none };
}

psk_of_64_digits_example :
    (check_and_init_from_env hex_only (some digits) ≡ some (new_cipher digits_bytes))
    × (parse_psk_env kdf (some digits) ≡ key digits_bytes)
unfolding doubled
psk_of_64_digits_example =
    psk_of_64_digits hex_only kdf digits digits_bytes
      (few_spelled (doubled 30) (replicate 30 0) (zeros_spelled 30)) refl refl

main_blank_psk_example :
    main hex_only kdf (λ s. (0, s)) (λ settings. true) [] true (variables (codes " ")) ≡ uncaught
main_blank_psk_example =
    main_blank_psk hex_only kdf (λ s. (0, s)) (λ settings. true) [] true (variables (codes " ")) 32
      [] refl refl refl

short_psk_unsealed_example :
    ((wire hex_only (λ s. (0, s)) (variables few)).cipher ≡ none)
    × ((t : ChatService (Unit {0})) × (f : List ℕ) × (Hello.start kdf noop_aead
            (variables few).chat
            (λ settings. true)
            true
            []
            (new_service tt (wire hex_only (λ s. (0, s)) (variables few)).mtu_payload)
          ≡ started t)
        × (hello_frame kdf noop_aead true (on_edge kdf noop_aead false true (replicate 32 5) t)
            ≡ some f)
        × Says f cap_aead_psk_supported)
short_psk_unsealed_example =
    short_psk_unsealed hex_only kdf (λ s. (0, s)) (λ settings. true) [] (replicate 32 5)
      (variables few) few 10 (249 ∷ []) refl (few_spelled [] [] tt) (omega arith) refl refl refl
