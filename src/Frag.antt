-- ===== src/Frag.antt =====
-- The on-wire chunk: the types and constants of include/proto/frag.hpp.
pub mod Chunks
pub mod Wire
pub mod Reassembler
pub mod RoundTrip
pub mod Split
pub mod Slots
pub mod Holds
pub mod Assembly
pub mod Delivery
mod Runs
use bitchat_clone.Base.{ℕ, List}

abbrev pub proto_ver : ℕ
proto_ver = 1

abbrev pub flag_final : ℕ
flag_final = 1

abbrev pub hdr_size : ℕ
hdr_size = 12

abbrev pub max_payload : ℕ
max_payload = 100

pub record Header : Type 0 where
  pub ver : ℕ
  pub flags : ℕ
  pub msg_id : ℕ
  pub seq : ℕ
  pub total : ℕ
  pub len : ℕ

pub record Chunk : Type 0 where
  pub hdr : Header
  pub payload : List ℕ
