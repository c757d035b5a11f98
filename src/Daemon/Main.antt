-- ===== src/Daemon/Main.antt =====
-- `main` of src/daemon/main.cpp: what it makes of the environment, and how it ends.
pub mod Hex
pub mod Psk
mod Runs
use bitchat_clone.Base.{
  ℕ, Bool, true, false, List, [], ◌∷◌, Option, none, some, if◌then◌else◌, replicate,
}
use bitchat_clone.Log.{Level, debug, level_by_name}
use bitchat_clone.Aead.{PskAead}
use bitchat_clone.Aead.Noop.{noop_aead}
use bitchat_clone.Aead.Sodium.{Primitives, Cipher, check_and_init_from_env, sodium_aead}
use bitchat_clone.Chat.{ChatService, Kdf}
use bitchat_clone.Chat.Hello
use bitchat_clone.Chat.Hello.{Settings, Environment, Started, started, refused, thrown}
use bitchat_clone.Daemon.{Transport, loopback, bluez, make_transport_from_env, mtu_payload}

-- The variables that are read before the server starts, but for the path of its socket.
pub record Variables : Type 0 where
  pub log_level : Option (List ℕ)
  pub adapter : Option (List ℕ)
  pub peer : Option (List ℕ)
  pub mtu_payload : Option (List ℕ)
  pub chat : Environment

-- With no cipher it is NoopPskAead that is used.
pub record Wiring : Type 0 where
  pub level : Level
  pub transport : Transport
  pub cipher : Option Cipher
  pub mtu_payload : ℕ

abbrev pub level_of : Option (List ℕ) → Level
level_of none = debug
level_of (some name) = level_by_name name

unfoldable pub wire : Primitives → (List ℕ → ℕ × List ℕ) → Variables → Wiring
wire P strtoul v = record {
  level = level_of v.log_level;
  transport = make_transport_from_env v.chat.transport v.chat.role v.adapter v.peer;
  cipher = check_and_init_from_env P v.chat.psk;
  mtu_payload = mtu_payload strtoul v.mtu_payload;
}

-- The service as it is constructed. `ctrl_hello_enabled_` has no value until `start` sets it.
unfoldable pub new_service : {C : Type 0} → C → ℕ → ChatService C
new_service cipher mtu = record {
  aead = cipher;
  rx = [];
  mtu_payload = mtu;
  next_id = 1;
  tail_enabled = true;
  ctrl_hello_enabled = false;
  hello_stop = true;
  hello_sent = false;
  local_user = [];
  local_caps = 0;
  na32 = replicate 32 0;
  peer_user = [];
  peer_caps = 0;
  peer_na32 = replicate 32 0;
  is_central = false;
  local_has_psk = false;
  peer_has_psk = false;
  aead_on = false;
  have_na_local = false;
  have_na_peer = false;
}

-- `uncaught` is an exception that leaves `main`.
pub data Exit : Type 0 where
  code : ℕ → Exit
  uncaught : Exit

abbrev pub exit_with : {S : Type 0} → Bool → Started S → Exit
exit_with served (started s) = if served then code 0 else code 1
exit_with served (refused s) = code 1
exit_with served (thrown s) = uncaught

abbrev pub is_bluez : Transport → Bool
is_bluez loopback = false
is_bluez (bluez role adapter peer) = true

module _ (P : Primitives) (K : Kdf) (strtoul : List ℕ → ℕ × List ℕ) where
  abbrev pub run_wired :
      (Settings → Bool) → List ℕ → Bool → Variables → Wiring → Option Cipher → Exit
  run_wired tx_started na served v w none = exit_with served (
      Hello.start K noop_aead v.chat tx_started (is_bluez w.transport) na
        (new_service tt w.mtu_payload))
  run_wired tx_started na served v w (some c) = exit_with served (
      Hello.start K (sodium_aead P) v.chat tx_started (is_bluez w.transport) na
        (new_service c w.mtu_payload))

  -- `tx_started` is what the transport's `start` answers to the settings, `na` the random bytes, and
  -- `served` what `start_server` answers.
  unfoldable pub main : (Settings → Bool) → List ℕ → Bool → Variables → Exit
  main tx_started na served v =
      let w = wire P strtoul v in run_wired tx_started na served v w w.cipher
