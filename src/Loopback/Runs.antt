-- ===== src/Loopback/Runs.antt =====
-- A text sent over the loopback link, and one that is refused.
use bitchat_clone.Base.{
  ℕ, ◌≡◌, refl, true, false, List, [], ◌∷◌, ◌++◌, none, some, arith, replicate, ◌-◌, ◌^◌, inr,
  lookup,
}
use bitchat_clone.Text.{codes}
use bitchat_clone.Aead.Noop.{seal, unseal, noop_aead}
use bitchat_clone.Frag.Reassembler.{Reassembler, State}
use bitchat_clone.Chat.{Kdf}
use bitchat_clone.Chat.Receive.{recv}
use bitchat_clone.Chat.Send.{send_text, bump_id}
use bitchat_clone.Loopback.{World, link}
use bitchat_clone.Loopback.EndToEnd.{CanSend, send_text_delivers, send_text_refused}

abbrev kdf : Kdf
kdf = record { base642bin = λ cap s. none; extract = λ salt ikm. none; expand = λ prk ctx n. none }

abbrev world : ℕ → World (Unit {0})
world mtu = record {
  service = record {
    aead = tt;
    rx = [];
    mtu_payload = mtu;
    next_id = 2 ^ 32 - 1;
    tail_enabled = true;
    ctrl_hello_enabled = false;
    hello_stop = true;
    hello_sent = false;
    local_user = [];
    local_caps = 0;
    na32 = replicate 32 0;
    peer_user = [];
    peer_caps = 0;
    peer_na32 = replicate 32 0;
    is_central = false;
    local_has_psk = false;
    peer_has_psk = false;
    aead_on = false;
    have_na_local = false;
    have_na_peer = false;
  };
  tx = record { attached = true; mtu = mtu; started = true };
  shown = [];
}

-- 42 bytes, which makes three frames of at most 30 bytes.
abbrev sealed_hi : List ℕ
sealed_hi = replicate 24 0 ++ (codes "hi" ++ replicate 16 0)

seal_hi : seal (codes "hi") ≡ some sealed_hi
unfolding seal
seal_hi = refl

unseal_hi : unseal sealed_hi ≡ some (codes "hi")
unfolding unseal
unseal_hi = refl

no_state : lookup {V = State} (2 ^ 32 - 1) [] ≡ none
unfolding lookup
no_state = refl

can_send : CanSend kdf noop_aead none (world 30) (codes "hi") [] sealed_hi
can_send = record {
  up = record { started = refl; attached = refl; no_hello = refl; tail = refl };
  same_mtu = refl;
  room = omega arith;
  small = omega arith;
  seals = seal_hi;
  opens = unseal_hi;
  few = omega arith;
  id_range = omega arith;
  idle = no_state;
}

send_text_delivers_example :
    (map' : Reassembler) × (send_text noop_aead (link kdf noop_aead none) (codes "hi") [] (world 30)
      ≡ (
        record (world 30) {
          service = record (world 30).service { next_id = 0; rx = map' };
          shown = recv (codes "hi") ∷ [];
        },
        true,
      ))
    × (lookup (2 ^ 32 - 1) map' ≡ none)
send_text_delivers_example =
    send_text_delivers kdf noop_aead none (world 30) (codes "hi") [] sealed_hi can_send

send_text_refused_example :
    send_text noop_aead (link kdf noop_aead none) (codes "hi") [] (world 244)
    ≡ (record (world 244) { service = bump_id (world 244).service }, false)
send_text_refused_example =
    send_text_refused noop_aead (link kdf noop_aead none) (world 244) (codes "hi") [] sealed_hi
      seal_hi (λ e. cc) (inr (omega arith))
