-- ===== src/Aead/Runs.antt =====
-- A toy cipher with the laws that libsodium documents, and what it seals.
use bitchat_clone.Base.{
  ℕ, ◌≡◌, refl, sym, Bool, true, false, List, [], ◌∷◌, ◌++◌, none, some, arith, length, inl, inr,
  if◌then◌else◌, replicate, drop, Bool-cases, ◌+◌, ◌≢◌, some_inj,
}
use bitchat_clone.Text.{str_eq, str_eq-eq}
use bitchat_clone.Aead.Noop
use bitchat_clone.Aead.Sodium.{Primitives, IsLawful, Apart, Cipher, seal}

-- The only key that the toy takes.
abbrev pub toy_key : List ℕ
toy_key = replicate 32 7

abbrev toy_tag : List ℕ
toy_tag = replicate 16 9

abbrev pub toy : Primitives
toy = record {
  encrypt = λ k n ad m. if str_eq k toy_key then some (toy_tag ++ m) else none;
  decrypt = λ k n ad c. if str_eq k toy_key then some (drop 16 c) else none;
  hex2bin = λ cap s. none;
}

taken : (t : Bool) (x y : List ℕ) → (if t then some x else none) ≡ some y → (t ≡ true) × (y ≡ x)
taken true x y e = (refl, sym (some_inj e))
taken false x y e = absurd (cc e)

pub toy_laws : IsLawful toy
toy_laws = record {
  decrypt-encrypt = λ k n ad m c e. opened k m c (taken (str_eq k toy_key) (toy_tag ++ m) c e);
  length-encrypt = λ k n ad m c e. size m c (taken (str_eq k toy_key) (toy_tag ++ m) c e).1;
}
  where
    opened :
        (k m c : List ℕ)
        → (str_eq k toy_key ≡ true) × (c ≡ toy_tag ++ m)
        → (if str_eq k toy_key then some (drop 16 c) else none) ≡ some m
    opened k m c (on, e) = rw (on, e) refl

    size : (m c : List ℕ) → c ≡ toy_tag ++ m → length c ≡ length m + 16
    size m c e = rw e (omega arith)

-- Under any other key, what the toy encrypts fails.
pub toy-Apart : (k k' : List ℕ) → k' ≢ toy_key → Apart toy k k'
toy-Apart k k' ne n ad m c e = elim (Bool-cases (str_eq k' toy_key)) [
  | inl same ↦ absurd (ne (str_eq-eq k' toy_key same))
  | inr other ↦ rw other refl
]

-- A side that fell back to its fixed key, and one that has the same key as its session's.
abbrev plain : Cipher
plain = record {
  key = toy_key;
  have_session = false;
  key_tx = [];
  key_rx = [];
  nonce_tx = [];
  nonce_rx = [];
}

abbrev in_session : Cipher
in_session = record {
  key = [];
  have_session = true;
  key_tx = toy_key;
  key_rx = toy_key;
  nonce_tx = [];
  nonce_rx = [];
}

abbrev sealed_hi : List ℕ
sealed_hi = replicate 24 1 ++ (toy_tag ++ (104 ∷ 105 ∷ []))

seal_hi : seal toy plain (104 ∷ 105 ∷ []) [] (replicate 24 1) ≡ some sealed_hi
unfolding seal
seal_hi = refl

noop_sealed : Noop.seal (104 ∷ 105 ∷ []) ≡ some (replicate 24 0 ++ (104 ∷ 105 ∷ replicate 16 0))
unfolding Noop.seal
noop_sealed = refl
