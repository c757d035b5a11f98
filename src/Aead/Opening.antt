-- ===== src/Aead/Opening.antt =====
-- Which sealed messages `SodiumPskAead::open` opens.
use bitchat_clone.Base.{
  ℕ, ◌≤◌, ◌≡◌, ◌⊎◌, inl, inr, refl, sym, true, false, List, ◌++◌, Option, none, some, if◌then◌else◌,
  length, arith, length-append, drop-append, take-append, ge→ltb, some_inj, Bool-cases,
}
use bitchat_clone.Aead.Sodium.{
  Primitives, IsLawful, Apart, Cipher, prepend, or_else, sending_key, seal, unseal,
}

prepend_inv :
    (front sealed : List ℕ) (o : Option (List ℕ))
    → prepend front o ≡ some sealed
    → (c : List ℕ) × (o ≡ some c) × (sealed ≡ front ++ c)
prepend_inv front sealed none e = absurd (cc e)
prepend_inv front sealed (some c) e = (c, refl, sym (some_inj e))

module _ (P : Primitives) where
  open P use {encrypt, decrypt}

  abbrev Sealed : Cipher → List ℕ → List ℕ → List ℕ → List ℕ → Type 0
  Sealed s msg ad random c = encrypt (sending_key P s) random ad msg ≡ some c

  unseal_lem :
      (s : Cipher) (random c ad : List ℕ)
      → length random ≡ 24
      → 16 ≤ length c
      → unseal P s (random ++ c) ad
        ≡ or_else
            (if s.have_session then decrypt s.key_rx random ad c else none)
            (decrypt s.key random ad c)
  unfolding unseal
  unseal_lem s random c ad r l = rw (
    ge→ltb (length (random ++ c)) 40 (omega (arith, length-append random c)),
    take-append 24 random c r,
    drop-append 24 random c r,
  )

  -- The session key does not come into it: there is no session, or its key does not verify.
  abbrev pub Passes : Cipher → Cipher → Type 0
  Passes a b = (b.have_session ≡ false) ⊎ Apart P (sending_key P a) b.key_rx

  -- The receiver has the key that the sender used, as its session's, or as its fixed one where the
  -- session's does not come into it.
  abbrev pub Shares : Cipher → Cipher → Type 0
  Shares a b =
      ((b.have_session ≡ true) × (b.key_rx ≡ sending_key P a))
      ⊎ (Passes a b × (b.key ≡ sending_key P a))

  -- Neither of its keys verifies what the sender seals.
  abbrev pub IsStranger : Cipher → Cipher → Type 0
  IsStranger a b = Passes a b × Apart P (sending_key P a) b.key

  passed :
      (a b : Cipher) (msg ad random c : List ℕ)
      → Sealed a msg ad random c
      → Passes a b
      → (if b.have_session then decrypt b.key_rx random ad c else none) ≡ none
  passed a b msg ad random c e (inl off) = rw off refl
  passed a b msg ad random c e (inr apart) = elim (Bool-cases b.have_session) [
    | inl on ↦ rw on (apart random ad msg c e)
    | inr off ↦ rw off refl
  ]

module _ (P : Primitives) (laws : IsLawful P) where
  open P use {encrypt, decrypt}

  shared_opens :
      (a b : Cipher) (msg ad random c : List ℕ)
      → Sealed P a msg ad random c
      → Shares P a b
      → or_else
          (if b.have_session then decrypt b.key_rx random ad c else none)
          (decrypt b.key random ad c)
        ≡ some msg
  shared_opens a b msg ad random c e (inl (on, same)) =
      rw (on, same, laws.decrypt-encrypt _ random ad msg c e) refl
  shared_opens a b msg ad random c e (inr (pass, same)) =
      rw (passed P a b msg ad random c e pass, same) (laws.decrypt-encrypt _ random ad msg c e)

  -- A message that one side sealed with a nonce of 24 bytes is opened to itself by a side that
  -- shares the key used, also if it has to fall back from its session key to the fixed one.
  pub opens_shared :
      (a b : Cipher) (msg ad random sealed : List ℕ)
      → length random ≡ 24
      → seal P a msg ad random ≡ some sealed
      → Shares P a b
      → unseal P b sealed ad ≡ some msg
  unfolding seal
  opens_shared a b msg ad random sealed r e sh =
      let (c, ec, es) = prepend_inv random sealed (encrypt (sending_key P a) random ad msg) e in
      let size = laws.length-encrypt (sending_key P a) random ad msg c ec in
      rw (es, unseal_lem P b random c ad r (omega (arith, size)))
        (shared_opens a b msg ad random c ec sh)

  -- A side that does not have the key used refuses the message.
  pub refuses_stranger :
      (a b : Cipher) (msg ad random sealed : List ℕ)
      → length random ≡ 24
      → seal P a msg ad random ≡ some sealed
      → IsStranger P a b
      → unseal P b sealed ad ≡ none
  unfolding seal
  refuses_stranger a b msg ad random sealed r e (pass, apart) =
      let (c, ec, es) = prepend_inv random sealed (encrypt (sending_key P a) random ad msg) e in
      let size = laws.length-encrypt (sending_key P a) random ad msg c ec in
      rw (es, unseal_lem P b random c ad r (omega (arith, size)))
        (rw (passed P a b msg ad random c ec pass) (apart random ad msg c ec))
