-- ===== src/Chat.antt =====
-- class ChatService of include/app/chat_service.hpp and src/app/chat_service.cpp.
pub mod Psk
pub mod Kex
pub mod Receive
pub mod Send
pub mod Hello
pub mod Calm
pub mod Frames
pub mod Transfer
pub mod Agreement
pub mod Session
pub mod Keys
pub mod Rounds
pub mod Early
pub mod Entropy
pub mod Replay
pub mod Runs
use bitchat_clone.Base.{ℕ, Bool, List, Option}
use bitchat_clone.Frag.Reassembler.{Reassembler}

-- The members. The transport and the hello thread are arguments of the operations, and the cipher
-- is the state of the `PskAead` that the service was made with.
pub record ChatService (Cipher : Type 0) : Type 0 where
  pub aead : Cipher
  pub rx : Reassembler
  pub mtu_payload : ℕ
  pub next_id : ℕ
  pub tail_enabled : Bool
  pub ctrl_hello_enabled : Bool
  pub hello_stop : Bool
  pub hello_sent : Bool
  pub local_user : List ℕ
  pub local_caps : ℕ
  pub na32 : List ℕ
  pub peer_user : List ℕ
  pub peer_caps : ℕ
  pub peer_na32 : List ℕ
  pub is_central : Bool
  pub local_has_psk : Bool
  pub peer_has_psk : Bool
  pub aead_on : Bool
  pub have_na_local : Bool
  pub have_na_peer : Bool

-- What libsodium does for the key exchange: base64 decoding of a text into a buffer of the given
-- capacity, and the two halves of HKDF-SHA256. `none` is a result other than 0.
pub record Kdf : Type 0 where
  pub base642bin : ℕ → List ℕ → Option (List ℕ)
  pub extract : List ℕ → List ℕ → Option (List ℕ)
  pub expand : List ℕ → List ℕ → ℕ → Option (List ℕ)
