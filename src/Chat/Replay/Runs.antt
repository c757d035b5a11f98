-- ===== src/Chat/Replay/Runs.antt =====
-- A sealed text that arrives twice.
use bitchat_clone.Base.{
  ℕ, ◌≡◌, refl, true, List, [], ◌∷◌, ◌++◌, none, some, arith, replicate, lookup,
}
use bitchat_clone.Text.{codes}
use bitchat_clone.Aead.Sodium.{Cipher, sodium_aead, unseal}
use bitchat_clone.Aead.Runs.{toy}
use bitchat_clone.Ctrl.{parse_hello, tlv_loop, take_tlv}
use bitchat_clone.Frag.Chunks.{make_chunks, chunk_loop, chunk_at}
use bitchat_clone.Frag.Wire.{serialize}
use bitchat_clone.Frag.Reassembler.{Reassembler}
use bitchat_clone.Chat.{ChatService}
use bitchat_clone.Chat.Receive.{recv, aad}
use bitchat_clone.Chat.Calm.{none_hello}
use bitchat_clone.Chat.Replay.{hears, frames, replay_shown}
use bitchat_clone.Chat.Runs.{kdf, psk_text, service}

abbrev bob : ChatService Cipher
bob = service true []

-- 42 bytes, which make three frames.
abbrev sealed_hi : List ℕ
sealed_hi = replicate 24 1 ++ (replicate 16 9 ++ codes "hi")

bob_opens : unseal toy bob.aead sealed_hi aad ≡ some (codes "hi")
unfolding unseal
bob_opens = refl

no_hello : none_hello (make_chunks 300 sealed_hi 18) ≡ true
unfolding make_chunks chunk_loop chunk_at serialize parse_hello tlv_loop take_tlv
no_hello = refl

nothing_waits : lookup 300 bob.rx ≡ none
unfolding lookup
nothing_waits = refl

replay_shown_example :
    (map' : Reassembler) × (hears kdf
        (sodium_aead toy)
        psk_text
        (bob, [])
        (frames 300 sealed_hi 18 ++ frames 300 sealed_hi 18)
      ≡ (record bob { rx = map' }, recv (codes "hi") ∷ recv (codes "hi") ∷ []))
replay_shown_example =
    replay_shown kdf (sodium_aead toy) psk_text bob 300 18 sealed_hi (codes "hi") [] refl
      (omega arith, omega arith, omega arith) (omega arith) bob_opens no_hello nothing_waits
