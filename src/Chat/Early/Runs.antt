-- ===== src/Chat/Early/Runs.antt =====
-- Ann's HELLO arrives before Bob's hello thread has seen the link come up.
use bitchat_clone.Base.{ℕ, true, false, List, [], ◌∷◌, ◌++◌, replicate}
use bitchat_clone.Text.{codes}
use bitchat_clone.Aead.Sodium.{Cipher, new_cipher}
use bitchat_clone.Aead.Runs.{toy}
use bitchat_clone.Chat.{ChatService}
use bitchat_clone.Chat.Agreement.{met}
use bitchat_clone.Chat.Session.{Event, receives, round, sends}
use bitchat_clone.Chat.Rounds.{come_up}
use bitchat_clone.Chat.Runs.{kdf, psk_text, service}

-- Their fixed key is not the one that HKDF gives.
abbrev fixed : Cipher
unfolding new_cipher
fixed = new_cipher (replicate 32 8)

abbrev ann : ChatService Cipher
unfolding fixed
ann = record (service true []) { aead = fixed }

abbrev bob : ChatService Cipher
unfolding fixed
bob = record (service false []) { aead = fixed }

abbrev ann_up : ChatService Cipher
ann_up = come_up kdf toy (replicate 32 3) ann

abbrev bob_up : ChatService Cipher
bob_up = come_up kdf toy (replicate 32 4) (met toy kdf psk_text bob ann_up)

abbrev random_bytes : List ℕ
random_bytes = replicate 24 1

abbrev sealed_hi : List ℕ
sealed_hi = random_bytes ++ (replicate 16 9 ++ codes "hi")

abbrev events : List Event
events = receives (codes "xx") ∷ round true true [] (λ f. true) ∷ sends ∷ []
