-- ===== src/Chat/Hello.antt =====
-- `ChatService::start` and `stop` of src/app/chat_service.cpp, and the body of the hello thread.
use bitchat_clone.Base.{
  ℕ, Bool, true, false, not, ◌&&◌, ◌||◌, List, [], ◌∷◌, Option, none, some, if◌then◌else◌, take,
}
use bitchat_clone.Text.{codes, str_eq}
use bitchat_clone.Aead.{PskAead}
use bitchat_clone.Ctrl.{encode_hello, cap_aead_psk_supported}
use bitchat_clone.Chat.{ChatService, Kdf}
use bitchat_clone.Chat.Psk.{PskResult, key, invalid, out_of_range, parse_psk_env}

-- transport::Settings
pub record Settings : Type 0 where
  pub role : List ℕ
  pub svc_uuid : List ℕ
  pub tx_uuid : List ℕ
  pub rx_uuid : List ℕ
  pub mtu_payload : ℕ

-- The variables that `start` reads.
pub record Environment : Type 0 where
  pub transport : Option (List ℕ)
  pub role : Option (List ℕ)
  pub psk : Option (List ℕ)
  pub user_id : Option (List ℕ)

abbrev pub value_or : Option (List ℕ) → List ℕ → List ℕ
value_or none default = default
value_or (some v) default = v

unfoldable pub settings_for : Environment → ℕ → Settings
settings_for env mtu =
    if str_eq (value_or env.transport (codes "loopback")) (codes "bluez")
    then record {
      role = value_or env.role (codes "peripheral");
      svc_uuid = codes "7e0f8f20-cc0b-4c6e-8a3e-5d21b2f8a9c4";
      tx_uuid = codes "7e0f8f21-cc0b-4c6e-8a3e-5d21b2f8a9c4";
      rx_uuid = codes "7e0f8f22-cc0b-4c6e-8a3e-5d21b2f8a9c4";
      mtu_payload = mtu;
    }
    else record {
      role = codes "loopback";
      svc_uuid = [];
      tx_uuid = [];
      rx_uuid = [];
      mtu_payload = mtu;
    }

-- `started` and `refused` are the result of `start`; `thrown` is the exception of `parse_psk_env`.
pub data Started (S : Type 0) : Type 0 where
  started : S → Started S
  refused : S → Started S
  thrown : S → Started S

abbrev pub stop : {Cipher : Type 0} → ChatService Cipher → ChatService Cipher
stop s = record s { hello_stop = true }

module _ (K : Kdf) (A : PskAead) where
  open A use {Cipher, set_session}

  abbrev pub clear_session : ChatService Cipher → ChatService Cipher
  clear_session s = record s { aead = (set_session s.aead none).0; aead_on = false }

  -- From the HELLO members on: only for a transport that is called "bluez".
  abbrev pub enable_hello : Environment → List ℕ → ChatService Cipher → ChatService Cipher
  enable_hello env na s = clear_session (record s {
    local_user = take 64 (value_or env.user_id []);
    hello_stop = false;
    hello_sent = false;
    na32 = na;
    have_na_local = s.local_has_psk;
  })

  abbrev pub with_psk : Environment → Bool → List ℕ → Bool → ChatService Cipher → ChatService Cipher
  with_psk env bluez na has_psk s =
      let s' : ChatService Cipher = record s {
        local_has_psk = has_psk;
        local_caps = if has_psk then cap_aead_psk_supported else 0;
        ctrl_hello_enabled = bluez;
      } in
      if bluez then enable_hello env na s' else s'

  abbrev start_with :
      Environment → Bool → List ℕ → PskResult → ChatService Cipher → Started (ChatService Cipher)
  start_with env bluez na out_of_range s = thrown s
  start_with env bluez na invalid s = started (with_psk env bluez na false s)
  start_with env bluez na (key []) s = started (with_psk env bluez na false s)
  start_with env bluez na (key (c ∷ cs)) s = started (with_psk env bluez na true s)

  -- `tx_started` is what the transport's `start` answers to the settings, `bluez` whether its name
  -- is "bluez", and `na` what `get_na32` leaves in `na32_`.
  unfoldable pub start :
      Environment
      → (Settings → Bool)
      → Bool
      → List ℕ
      → ChatService Cipher
      → Started (ChatService Cipher)
  start env tx_started bluez na s =
      let settings = settings_for env s.mtu_payload in
      let s' : ChatService Cipher = record s {
        hello_stop = true;
        is_central = str_eq settings.role (codes "central");
      } in
      if tx_started settings
      then start_with env bluez na (parse_psk_env K env.psk) s'
      else refused (stop s)

  -- A new link: fresh random bytes, no session, and the HELLO is to be sent again.
  unfoldable pub on_edge : Bool → Bool → List ℕ → ChatService Cipher → ChatService Cipher
  on_edge last_ready ready na s =
      if ready && not last_ready
      then clear_session (record s {
        na32 = na;
        have_na_local = s.local_has_psk;
        have_na_peer = false;
        hello_sent = false;
      })
      else s

  -- The frame that the thread sends, if it sends one.
  unfoldable pub hello_frame : Bool → ChatService Cipher → Option (List ℕ)
  hello_frame ready s =
      if ready && not s.hello_sent
      then some
          (encode_hello s.local_user s.local_caps (if s.local_has_psk then some s.na32 else none))
      else none

  abbrev pub sent_frame : (List ℕ → Bool) → Option (List ℕ) → Bool
  sent_frame send none = false
  sent_frame send (some f) = send f

  unfoldable pub on_down : Bool → ChatService Cipher → ChatService Cipher
  on_down ready s = if ready then s else clear_session (record s { hello_sent = false })

  -- One round of the thread's loop. `ready` is `tx_.link_ready()` and becomes `last_ready`; `send`
  -- says whether the transport takes a frame.
  unfoldable pub hello_round :
      Bool → Bool → List ℕ → (List ℕ → Bool) → ChatService Cipher → ChatService Cipher
  hello_round last_ready ready na send s =
      let s' = on_edge last_ready ready na s in
      on_down ready
        (record s' { hello_sent = sent_frame send (hello_frame ready s') || s'.hello_sent })
