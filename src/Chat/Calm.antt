-- ===== src/Chat/Calm.antt =====
-- Frames of data that are not taken for a HELLO.
use bitchat_clone.Base.{
  ℕ, suc, zero, ◌≡◌, refl, subst, Bool, true, false, not, ◌&&◌, List, [], ◌∷◌, Option, some, arith,
  get_elem?, some_inj, both_true, is_off,
}
use bitchat_clone.Aead.{PskAead}
use bitchat_clone.Ctrl.{Parsed, accepted, malformed, stuck, parse_hello, new_hello}
use bitchat_clone.Frag.{Chunk}
use bitchat_clone.Frag.Wire.{serialize}
use bitchat_clone.Chat.{ChatService, Kdf}
use bitchat_clone.Chat.Receive.{on_parsed, on_data, on_rx}

-- A frame that the other side's chat service does not take for a HELLO.
abbrev is_accepted : Parsed → Bool
is_accepted (accepted h) = true
is_accepted _ = false

abbrev pub is_hello : List ℕ → Bool
is_hello f = is_accepted (parse_hello f new_hello)

abbrev pub none_hello : List Chunk → Bool
none_hello [] = true
none_hello (c ∷ cs) = not (is_hello (serialize c)) && none_hello cs

pub none_hello-get_elem? :
    (cs : List Chunk) (i : ℕ) (c : Chunk)
    → none_hello cs ≡ true
    → get_elem? cs i ≡ some c
    → is_hello (serialize c) ≡ false
none_hello-get_elem? [] i c h e = absurd (cc e)
none_hello-get_elem? (d ∷ cs) zero c h e =
    subst (λ b. is_hello (serialize b) ≡ false) (some_inj e)
      (is_off (is_hello (serialize d)) (both_true _ _ h).0)
none_hello-get_elem? (d ∷ cs) (suc i) c h e = none_hello-get_elem? cs i c (ground arith) e

module _ (K : Kdf) (A : PskAead) (env_psk : Option (List ℕ)) where
  parsed_data :
      (s : ChatService A.Cipher) (f : List ℕ) (q : Parsed)
      → is_accepted q ≡ false
      → on_parsed K A env_psk s f q ≡ on_data K A env_psk s f
  parsed_data s f (accepted h) e = absurd (cc e)
  parsed_data s f (malformed h) e = refl
  parsed_data s f stuck e = refl

  pub calm_on_rx :
      (s : ChatService A.Cipher) (f : List ℕ)
      → is_hello f ≡ false
      → on_rx K A env_psk s f ≡ on_data K A env_psk s f
  unfolding on_rx
  calm_on_rx s f e = ground (arith, parsed_data s f (parse_hello f new_hello) e)
