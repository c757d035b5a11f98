-- ===== src/Aead/Noop.antt =====
-- class NoopPskAead of include/crypto/psk_aead.hpp: the format without encryption.
use bitchat_clone.Base.{
  ℕ, ◌+◌, ◌-◌, ◌<◌, ◌≡◌, ap, ◌∙◌, false, List, ◌++◌, Option, none, some, ltb, if◌then◌else◌, length,
  take, drop, replicate, arith, length-append, take-append, ge→ltb, lt→ltb, subst, some_inj,
}
use bitchat_clone.Aead.{PskAead, nonce_size, tag_size}

unfoldable pub seal : List ℕ → Option (List ℕ)
seal plaintext = some (replicate nonce_size 0 ++ (plaintext ++ replicate tag_size 0))

unfoldable pub unseal : List ℕ → Option (List ℕ)
unseal sealed =
    if ltb (length sealed) (nonce_size + tag_size)
    then none
    else some (take (length sealed - nonce_size - tag_size) (drop nonce_size sealed))

-- `set_session` keeps nothing and answers false.
abbrev pub noop_aead : PskAead
noop_aead = record {
  Cipher = Unit {0};
  seal = λ s msg ad random. seal msg;
  unseal = λ s sealed ad. unseal sealed;
  set_session = λ s keys. (s, false);
}

-- A message that is sealed is opened to itself.
pub unseal-seal : (msg sealed : List ℕ) → seal msg ≡ some sealed → unseal sealed ≡ some msg
unfolding seal unseal
unseal-seal msg sealed e = subst (λ s. unseal s ≡ some msg) (some_inj e) (opened ∙ ap some kept)
  where
    tag : List ℕ
    tag = replicate 16 0

    size : length (replicate 24 0 ++ (msg ++ tag)) ≡ length msg + 40
    size = omega (arith, length-append msg tag)

    opened :
        unseal (replicate 24 0 ++ (msg ++ tag))
        ≡ some (take (length (replicate 24 0 ++ (msg ++ tag)) - 24 - 16) (msg ++ tag))
    opened = rw (ge→ltb (length (replicate 24 0 ++ (msg ++ tag))) 40 (omega (arith, size)))

    kept : take (length (replicate 24 0 ++ (msg ++ tag)) - 24 - 16) (msg ++ tag) ≡ msg
    kept = take-append _ msg tag (omega (arith, size))

-- What is shorter than a nonce and a tag is refused.
pub unseal_short : (sealed : List ℕ) → length sealed < 40 → unseal sealed ≡ none
unfolding unseal
unseal_short sealed h = rw (lt→ltb (length sealed) 40 h)
