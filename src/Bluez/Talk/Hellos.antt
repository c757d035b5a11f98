-- ===== src/Bluez/Talk/Hellos.antt =====
-- The HELLOs of two daemons over BlueZ, once both hello threads have seen the link come up.
use bitchat_clone.Base.{
  ℕ, ◌≡◌, refl, ap, ◌∙◌, Bool, false, not, List, Option, none, some, if◌then◌else◌,
}
use mathlib.Core.Path.{ap₂}
use bitchat_clone.Aead.Sodium.{Primitives, Cipher, sodium_aead}
use bitchat_clone.Ctrl.{encode_hello}
use bitchat_clone.Chat.{ChatService, Kdf}
use bitchat_clone.Chat.Receive.{Shown, log, on_rx}
use bitchat_clone.Chat.Hello.{on_edge, on_down, hello_frame, hello_round}
use bitchat_clone.Chat.Agreement.{hello_from, met}
use bitchat_clone.Chat.Rounds.{Willing, come_up}
use bitchat_clone.Bluez.{no_bytes}
use bitchat_clone.Bluez.Air.{Air, Radio, IsUnheard, unheard}
use bitchat_clone.Bluez.EndToEnd.{IsUp, sent_air, arrived, relinked, deliver_lem}
use bitchat_clone.Bluez.EndToEnd.Back.{still-IsUnheard}
use bitchat_clone.Bluez.Talk.{
  Pair, forth, back, put_forth, put_back, send_hello, first_hello, exchange, greet,
}

module _ (R : Radio) (K : Kdf) (P : Primitives) (env_psk : Option (List ℕ)) where
  first_hello_lem :
      (na : List ℕ) (s : ChatService Cipher) (central : Bool)
      → Willing s central
      → first_hello R K (sodium_aead P) env_psk na s ≡ some (hello_from (come_up K P na s))
  unfolding hello_frame on_edge hello_round on_down
  first_hello_lem na s central w =
      ap (λ b. some (encode_hello s.local_user s.local_caps (if b then some na else none))) w.psk

  hello_full : (s : ChatService Cipher) → no_bytes (hello_from s) ≡ false
  unfolding encode_hello
  hello_full s = refl

  -- A HELLO gets across.
  hello_crosses :
      (a : Air Cipher) (s : ChatService Cipher)
      → IsUp R K (sodium_aead P) env_psk a
      → send_hello R K (sodium_aead P) env_psk (some (hello_from s)) a ≡ record a {
        receiver = met P K env_psk a.receiver s;
        shown = log a.shown (on_rx K (sodium_aead P) env_psk a.receiver (hello_from s)).1;
      }
  hello_crosses a s up =
      ap (λ w. w.0)
        (sent_air R K (sodium_aead P) env_psk a (hello_from s) up.linked up.near_runs
          (hello_full s))
      ∙ arrived R K (sodium_aead P) env_psk a (hello_from s) _ _
          (deliver_lem (hello_from s) a.far (hello_full s) up.far_runs up.attached) refl

  pub still_up :
      (a : Air Cipher) (s t : ChatService Cipher) (lines : List Shown)
      → IsUp R K (sodium_aead P) env_psk a
      → IsUp R K (sodium_aead P) env_psk (record a { sender = s; receiver = t; shown = lines })
  still_up a s t lines up = record {
    linked = relinked R K (sodium_aead P) env_psk a s t lines up.linked;
    near_runs = up.near_runs;
    far_runs = up.far_runs;
    attached = up.attached;
  }

  -- The line of a HELLO from `s`.
  abbrev pub hello_shown : ChatService Cipher → ChatService Cipher → List Shown → List Shown
  hello_shown t s lines = log lines (on_rx K (sodium_aead P) env_psk t (hello_from s)).1

  -- The HELLO of the right side is not heard.
  abbrev pub exchanged : Pair Cipher → Pair Cipher
  exchanged p = record p {
    right = met P K env_psk p.right p.left;
    right_shown = hello_shown p.right p.left p.right_shown;
  }

  exchange_lem :
      (p : Pair Cipher)
      → IsUp R K (sodium_aead P) env_psk (forth p)
      → IsUnheard R (back p)
      → exchange R K
          (sodium_aead P)
          env_psk
          (some (hello_from p.left))
          (some (hello_from p.right))
          p
        ≡ exchanged p
  exchange_lem p up deaf =
      let half : Pair Cipher = record p {
        right = met P K env_psk p.right p.left;
        right_shown = hello_shown p.right p.left p.right_shown;
      } in
      ap
        (λ a. put_back (put_forth p a) (
          send_hello R K (sodium_aead P) env_psk (some (hello_from p.right))
            (back (put_forth p a))))
        (hello_crosses (forth p) p.left up)
      ∙ ap (λ w. put_back half w.0)
          (unheard R K (sodium_aead P) env_psk (back half) (hello_from p.right)
            (still-IsUnheard R K (sodium_aead P) env_psk (back p) half.right half.left
              half.left_shown deaf)
            (hello_full p.right))

  pub greet_lem :
      (p : Pair Cipher) (central : Bool) (na na' : List ℕ)
      → Willing p.left central
      → Willing p.right (not central)
      → IsUp R K (sodium_aead P) env_psk (forth p)
      → IsUnheard R (back p)
      → greet R K (sodium_aead P) env_psk na na' p
        ≡ exchanged (record p { left = come_up K P na p.left; right = come_up K P na' p.right })
  unfolding greet
  greet_lem p central na na' w v up deaf =
      let s = come_up K P na p.left in
      let t = come_up K P na' p.right in
      let awake : Pair Cipher = record p { left = s; right = t } in
      ap₂ (λ f g. exchange R K (sodium_aead P) env_psk f g awake)
        (first_hello_lem na p.left central w) (first_hello_lem na' p.right (not central) v)
      ∙ exchange_lem awake (still_up (forth p) s t p.right_shown up)
          (still-IsUnheard R K (sodium_aead P) env_psk (back p) t s p.left_shown deaf)
