-- ===== src/Bluez/Talk/Runs.antt =====
-- A central and a peripheral with a toy cipher that send their HELLOs, and then a text each.
use bitchat_clone.Base.{
  ℕ, true, false, List, [], ◌++◌, none, some, if◌then◌else◌, take, drop, replicate, get_or,
}
use bitchat_clone.Text.{codes, str_eq}
use bitchat_clone.Aead.{SessionKeys}
use bitchat_clone.Aead.Sodium.{Primitives, Cipher, sodium_aead}
use bitchat_clone.Chat.{Kdf}
use bitchat_clone.Chat.Runs.{kdf, psk_text, service}
use bitchat_clone.Bluez.{Role, central, peripheral, Bluez, Impl, new_impl}
use bitchat_clone.Bluez.Air.{Radio}
use bitchat_clone.Bluez.Talk.{Pair, greet}

abbrev radio : Radio
radio = record { extra = []; path = codes "/d/c2"; hears = λ r path. str_eq r.path path }

-- HKDF that always gives a key that is not the fixed one.
abbrev session_key : List ℕ
session_key = replicate 32 8

abbrev derive : Kdf
derive = record kdf { expand = λ prk ctx n. some session_key }

abbrev session_keys : SessionKeys
session_keys = record {
  ke_c2p = session_key;
  ke_p2c = session_key;
  n24_c2p = session_key;
  n24_p2c = session_key;
}

abbrev impl : Impl
unfolding new_impl
impl = record new_impl {
  bus = true;
  dev_path = codes "/d";
  peer_rx_path = codes "/d/c1";
  connected = true;
  subscribed = true;
  notifying = true;
}

-- A cipher that takes every key and writes its first byte into the tag.
abbrev tag_of : List ℕ → List ℕ
tag_of k = replicate 16 (get_or k 0 0)

abbrev marked : Primitives
marked = record {
  encrypt = λ k n ad m. some (tag_of k ++ m);
  decrypt = λ k n ad c. if str_eq (take 16 c) (tag_of k) then some (drop 16 c) else none;
  hex2bin = λ cap s. none;
}

abbrev transport : Role → Bluez
unfolding impl
transport role = record {
  cfg = record {
    role = role;
    adapter = [];
    svc_uuid = [];
    tx_uuid = [];
    rx_uuid = [];
    peer_addr = none;
  };
  attached = true;
  mtu = 100;
  running = true;
  impl = some impl;
}

abbrev pair : Pair Cipher
unfolding transport
pair = record {
  left = service true [];
  right = service false [];
  left_tx = transport central;
  right_tx = transport peripheral;
  left_shown = [];
  right_shown = [];
}

abbrev drawn : List ℕ
drawn = replicate 32 5

abbrev random_bytes : List ℕ
random_bytes = replicate 24 1

abbrev sealed_hi : List ℕ
sealed_hi = random_bytes ++ (replicate 16 7 ++ codes "hi")

abbrev sealed_back : List ℕ
sealed_back = random_bytes ++ (replicate 16 8 ++ codes "hi")

abbrev greeted : Pair Cipher
greeted = greet radio derive (sodium_aead marked) psk_text drawn drawn pair
