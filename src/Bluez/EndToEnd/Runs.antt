-- ===== src/Bluez/EndToEnd/Runs.antt =====
-- A text from a central to a peripheral, in three writes, and one back.
use bitchat_clone.Base.{
  ℕ, ◌≡◌, refl, sym, true, List, [], ◌∷◌, ◌++◌, none, some, arith, replicate, lookup,
}
use bitchat_clone.Text.{codes, str_eq, str_eq-eq}
use bitchat_clone.Aead.Noop.{seal, unseal, noop_aead}
use bitchat_clone.Ctrl.{parse_hello, tlv_loop, take_tlv}
use bitchat_clone.Frag.Chunks.{make_chunks, chunk_loop, chunk_at}
use bitchat_clone.Frag.Wire.{serialize}
use bitchat_clone.Frag.Reassembler.{Reassembler}
use bitchat_clone.Chat.{ChatService, Kdf}
use bitchat_clone.Chat.Receive.{recv}
use bitchat_clone.Chat.Send.{send_text}
use bitchat_clone.Daemon.Main.{new_service}
use bitchat_clone.Bluez.{Role, central, peripheral, Bluez, Impl, new_impl}
use bitchat_clone.Bluez.Air.{Air, Radio, air_link, IsUnheard}
use bitchat_clone.Bluez.EndToEnd.{CanCross, send_text_crosses}
use bitchat_clone.Bluez.EndToEnd.Back.{send_text_unheard}

abbrev kdf : Kdf
kdf = record { base642bin = λ cap s. none; extract = λ salt ikm. none; expand = λ prk ctx n. none }

abbrev radio : Radio
radio = record { extra = []; path = codes "/d/c2"; hears = λ r path. str_eq r.path path }

abbrev found_peer : Impl
unfolding new_impl
found_peer = record new_impl {
  bus = true;
  peer_rx_path = codes "/d/c1";
  connected = true;
  subscribed = true;
  notifying = true;
}

abbrev transport : Role → Bluez
unfolding found_peer
transport role = record {
  cfg = record {
    role = role;
    adapter = [];
    svc_uuid = [];
    tx_uuid = [];
    rx_uuid = [];
    peer_addr = none;
  };
  attached = true;
  mtu = 30;
  running = true;
  impl = some found_peer;
}

abbrev service : ChatService (Unit {0})
unfolding new_service
service = record (new_service tt 30) { ctrl_hello_enabled = true; next_id = 300 }

abbrev air : Air (Unit {0})
unfolding transport service
air = record {
  sender = service;
  near = transport central;
  far = transport peripheral;
  receiver = service;
  shown = [];
}

-- 42 bytes, which makes three frames of at most 30 bytes.
abbrev sealed_hi : List ℕ
sealed_hi = replicate 24 0 ++ (codes "hi" ++ replicate 16 0)

can_cross : CanCross radio kdf noop_aead none air (codes "hi") [] sealed_hi
unfolding air seal unseal lookup make_chunks chunk_loop parse_hello serialize chunk_at tlv_loop
    take_tlv
can_cross = record {
  up = record {
    linked = record {
      has = found_peer;
      role = refl;
      impl = refl;
      bus = refl;
      found = refl;
      plain = refl;
    };
    near_runs = refl;
    far_runs = refl;
    attached = refl;
  };
  tail = refl;
  room = omega arith;
  small = omega arith;
  seals = refl;
  opens = refl;
  few = omega arith;
  id_range = omega arith;
  idle = refl;
  calm = refl;
}

send_text_crosses_example :
    (map' : Reassembler) × (send_text noop_aead
        (air_link radio kdf noop_aead none)
        (codes "hi")
        []
        air
      ≡ (
        record air {
          sender = record air.sender { next_id = 301 };
          receiver = record air.receiver { rx = map' };
          shown = recv (codes "hi") ∷ [];
        },
        true,
      ))
    × (lookup 300 map' ≡ none)
unfolding air
send_text_crosses_example =
    send_text_crosses radio kdf noop_aead none air (codes "hi") [] sealed_hi can_cross

abbrev back : Air (Unit {0})
unfolding transport service
back = record air { near = transport peripheral; far = transport central }

back-IsUnheard : IsUnheard radio back
unfolding back
back-IsUnheard = record {
  has = found_peer;
  role = refl;
  impl = refl;
  runs = refl;
  bus = refl;
  notifying = refl;
  exact = λ r path e. sym (str_eq-eq r.path path e);
  elsewhere = λ e. cc e;
}

send_text_unheard_example :
    send_text noop_aead (air_link radio kdf noop_aead none) (codes "hi") [] back
    ≡ (record back { sender = record back.sender { next_id = 301 } }, true)
unfolding back seal
send_text_unheard_example =
    send_text_unheard radio kdf noop_aead none back (codes "hi") [] sealed_hi back-IsUnheard
      (omega arith) (omega arith) refl (omega arith) (omega arith)
