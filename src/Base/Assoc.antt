-- ===== src/Base/Assoc.antt =====
-- A map with numbers for keys, as an association list: `std::unordered_map<uint32_t, V>`.
use Prim.Native.Nat.{ℕ}
use mathlib.Core.Path.{◌≡◌, refl}
use mathlib.Core.List.{List, [], ◌∷◌}
use mathlib.Core.Option.{Option, none, some}
use native.Mathlib.Omega.{arith}
use bitchat_clone.Base.Tests.{◌==◌, if◌then◌else◌}

module _ {ℓ} {V : Type ℓ} where
  unfoldable pub lookup : ℕ → List (ℕ × V) → Option V
  lookup key [] = none
  lookup key ((j, v) ∷ rest) = if j == key then some v else lookup key rest

  unfoldable pub insert : ℕ → V → List (ℕ × V) → List (ℕ × V)
  insert key v [] = (key, v) ∷ []
  insert key v ((j, old) ∷ rest) =
      if j == key then (key, v) ∷ rest else (j, old) ∷ insert key v rest

  unfoldable pub erase : ℕ → List (ℕ × V) → List (ℕ × V)
  erase key [] = []
  erase key ((j, old) ∷ rest) = if j == key then erase key rest else (j, old) ∷ erase key rest

  pub lookup-insert :
      (key j : ℕ) (v : V) (rest : List (ℕ × V))
      → lookup j (insert key v rest) ≡ (if key == j then some v else lookup j rest)
  unfolding lookup insert
  lookup-insert key j v [] = refl
  lookup-insert key j v ((i, old) ∷ rest) = ground (arith, lookup-insert key j v rest)

  pub lookup-erase :
      (key j : ℕ) (rest : List (ℕ × V))
      → lookup j (erase key rest) ≡ (if key == j then none else lookup j rest)
  unfolding lookup erase
  lookup-erase key j [] = ground arith
  lookup-erase key j ((i, old) ∷ rest) = ground (arith, lookup-erase key j rest)
