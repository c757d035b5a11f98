-- ===== src/Bluez/Talk/Texts.antt =====
-- Texts between two daemons over BlueZ, after their HELLOs.
use bitchat_clone.Base.{
  ℕ, ◌+◌, ◌-◌, ◌%◌, ◌^◌, ◌<◌, ◌≤◌, ◌≡◌, true, false, List, [], ◌∷◌, ◌++◌, Option, none, some,
  length, lookup, IsU32,
}
use bitchat_clone.Aead.{PskAead}
use bitchat_clone.Aead.Sodium.{Primitives, Cipher, sodium_aead}
use bitchat_clone.Frag.Chunks.{make_chunks, num_chunks}
use bitchat_clone.Frag.Reassembler.{Reassembler}
use bitchat_clone.Chat.{Kdf}
use bitchat_clone.Chat.Receive.{recv, aad}
use bitchat_clone.Chat.Send.{send_text}
use bitchat_clone.Chat.Calm.{none_hello}
use bitchat_clone.Bluez.Air.{Air, Radio, air_link}
use bitchat_clone.Bluez.Talk.{Pair, forth, back}

-- What a message wants of the two services and of the map of the receiver, but for the keys.
pub record HasRoom (A : PskAead) (a : Air A.Cipher) (msg random sealed : List ℕ) : Type 0 where
  pub tail : a.receiver.tail_enabled ≡ true
  pub room : 12 < a.sender.mtu_payload
  pub small : a.sender.mtu_payload ≤ 112
  pub seals : A.seal a.sender.aead msg aad random ≡ some sealed
  pub few : num_chunks (length sealed) (a.sender.mtu_payload - 12) ≤ 65535
  pub id_range : IsU32 a.sender.next_id
  pub idle : lookup a.sender.next_id a.receiver.rx ≡ none
  pub calm : none_hello (make_chunks a.sender.next_id sealed (a.sender.mtu_payload - 12)) ≡ true

module _ (R : Radio) (K : Kdf) (A : PskAead) (env_psk : Option (List ℕ)) where
  -- The text arrives whole: the call succeeds, the one line that the receiver shows is the text, the
  -- sender's id moves on, and no part of the message is kept.
  abbrev pub Arrives : Air A.Cipher → List ℕ → List ℕ → Type 0
  Arrives a msg random =
      (map' : Reassembler) × (send_text A (air_link R K A env_psk) msg random a ≡ (
        record a {
          sender = record a.sender { next_id = (a.sender.next_id + 1) % 2 ^ 32 };
          receiver = record a.receiver { rx = map' };
          shown = a.shown ++ (recv msg ∷ []);
        },
        true,
      ))
      × (lookup a.sender.next_id map' ≡ none)

-- What a text of a side that is not heard wants of it.
pub record CanSend (A : PskAead) (a : Air A.Cipher) (msg random sealed : List ℕ) : Type 0 where
  pub room : 12 < a.sender.mtu_payload
  pub small : a.sender.mtu_payload ≤ 112
  pub seals : A.seal a.sender.aead msg aad random ≡ some sealed
  pub few : num_chunks (length sealed) (a.sender.mtu_payload - 12) ≤ 65535
  pub id_range : IsU32 a.sender.next_id

module _ (R : Radio) (K : Kdf) (A : PskAead) (env_psk : Option (List ℕ)) where
  -- The call succeeds and the sender's id moves on; the other side shows nothing and is as it was.
  abbrev pub GoesUnheard : Air A.Cipher → List ℕ → List ℕ → Type 0
  GoesUnheard a msg random =
      send_text A (air_link R K A env_psk) msg random a
      ≡ (record a { sender = record a.sender { next_id = (a.sender.next_id + 1) % 2 ^ 32 } }, true)

-- The session is on at the peripheral only, a text from the central arrives, and one from the peripheral
-- is not heard.
abbrev pub OneWay :
    Radio
    → Kdf
    → Primitives
    → Option (List ℕ)
    → Pair Cipher
    → List ℕ
    → List ℕ
    → List ℕ
    → List ℕ
    → Type 0
OneWay R K P env_psk q msg random msg' random' =
    (q.left.aead_on ≡ false)
    × (q.right.aead_on ≡ true)
    × Arrives R K (sodium_aead P) env_psk (forth q) msg random
    × GoesUnheard R K (sodium_aead P) env_psk (back q) msg' random'
