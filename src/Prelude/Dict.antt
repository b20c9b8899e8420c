-- ===== src/Prelude/Dict.antt =====
-- A `std::unordered_map` with number keys as an association list. The order of the list stands for
-- the table's iteration order, which C++ leaves open: the theorems hold for every order.
use Prim.Native.Nat.{ℕ, suc}
use mathlib.Core.Path.{◌≡◌, refl, ap, ◌∙◌}
use mathlib.Core.Logic.{◌⊎◌, inl, inr}
use mathlib.Core.Bool.{false}
use mathlib.Core.Option.{Option, none, some}
use mathlib.Core.List.{List, [], ◌∷◌}
use native.Mathlib.Omega.{arith}
use ll2games_rpg.Prelude.Lists.{length}
use ll2games_rpg.Prelude.Tests.{◌==◌, if◌then◌else◌, Bool-cases}

abbrev pub Dict {ℓ} : Type ℓ → Type ℓ
Dict V = List (ℕ × V)

module _ {ℓ} {V : Type ℓ} where
  -- `find`
  abbrev pub lookup : ℕ → Dict V → Option V
  lookup k [] = none
  lookup k ((j, v) ∷ m) = if k == j then some v else lookup k m

  -- `m[k] = v`
  abbrev pub insert : ℕ → V → Dict V → Dict V
  insert k v [] = (k, v) ∷ []
  insert k v ((j, w) ∷ m) = if k == j then (k, v) ∷ m else (j, w) ∷ insert k v m

  -- `erase`
  abbrev pub erase : ℕ → Dict V → Dict V
  erase k [] = []
  erase k ((j, w) ∷ m) = if k == j then erase k m else (j, w) ∷ erase k m

  pub lookup-insert :
      (k j : ℕ) (v : V) (m : Dict V)
      → lookup j (insert k v m) ≡ (if j == k then some v else lookup j m)
  lookup-insert k j v [] = refl
  lookup-insert k j v ((i, w) ∷ m) = ground (arith, lookup-insert k j v m)

  pub lookup-erase :
      (k j : ℕ) (m : Dict V) → lookup j (erase k m) ≡ (if j == k then none else lookup j m)
  lookup-erase k j [] = ground arith
  lookup-erase k j ((i, w) ∷ m) = ground (arith, lookup-erase k j m)

  -- Each key once, as in a table.
  abbrev pub Distinct : Dict V → Type ℓ
  Distinct [] = Unit
  Distinct ((k, _) ∷ m) = (lookup k m ≡ none) × Distinct m

  pub erase-missing : (k : ℕ) (m : Dict V) → lookup k m ≡ none → erase k m ≡ m
  erase-missing k [] e = refl
  erase-missing k ((j, w) ∷ m) e = ground (arith, erase-missing k m)

  pub insert-Distinct : (k : ℕ) (v : V) (m : Dict V) → Distinct m → Distinct (insert k v m)
  insert-Distinct k v [] d = (refl, tt)
  insert-Distinct k v ((j, w) ∷ m) d = elim (Bool-cases (k == j)) [
    | inl same ↦ rw same (let is : k ≡ j = ground arith in rw is d)
    | inr other ↦ rw other (ground (arith, d.0, lookup-insert k j v m), insert-Distinct k v m d.1)
  ]

  pub erase-Distinct : (k : ℕ) (m : Dict V) → Distinct m → Distinct (erase k m)
  erase-Distinct k [] d = tt
  erase-Distinct k ((j, w) ∷ m) d = elim (Bool-cases (k == j)) [
    | inl same ↦ rw same (erase-Distinct k m d.1)
    | inr other ↦ rw other (ground (arith, d.0, lookup-erase k j m), erase-Distinct k m d.1)
  ]

  pub length-insert_new :
      (k : ℕ) (v : V) (m : Dict V) → lookup k m ≡ none → length (insert k v m) ≡ suc (length m)
  length-insert_new k v [] e = refl
  length-insert_new k v ((j, w) ∷ m) e = elim (Bool-cases (k == j)) [
    | inl same ↦ ground arith
    | inr other ↦ rw other (ap suc (length-insert_new k v m (ground arith)))
  ]

  pub length-insert_old :
      (k : ℕ) (v w : V) (m : Dict V) → lookup k m ≡ some w → length (insert k v m) ≡ length m
  length-insert_old k v w [] e = cc
  length-insert_old k v w ((j, u) ∷ m) e = elim (Bool-cases (k == j)) [
    | inl same ↦ rw same refl
    | inr other ↦ rw other (ap suc (length-insert_old k v w m (ground arith)))
  ]

  pub length-erase :
      (k : ℕ) (v : V) (m : Dict V)
      → Distinct m
      → lookup k m ≡ some v
      → suc (length (erase k m)) ≡ length m
  length-erase k v [] d e = cc
  length-erase k v ((j, u) ∷ m) d e = elim (Bool-cases (k == j)) [
    | inl same ↦
        let is : k ≡ j = ground arith in
        rw same (ap (λ n. suc (length n)) (erase-missing k m (rw is d.0)))
    | inr other ↦ rw other (ap suc (length-erase k v m d.1 (ground arith)))
  ]

  -- What is found after an insertion was put there or was there before.
  pub insert_cases :
      (k j : ℕ) (v w : V) (m : Dict V)
      → lookup j (insert k v m) ≡ some w
      → ((j ≡ k) × (v ≡ w)) ⊎ ((j == k) ≡ false) × (lookup j m ≡ some w)
  insert_cases k j v w m e = elim (Bool-cases (j == k)) [
    | inl same ↦ inl (ground arith, ground (arith, lookup-insert k j v m))
    | inr other ↦ inr (other, ground (arith, lookup-insert k j v m))
  ]

  pub erase_found :
      (k j : ℕ) (w : V) (m : Dict V)
      → lookup j (erase k m) ≡ some w
      → ((j == k) ≡ false) × (lookup j m ≡ some w)
  erase_found k j w m e = elim (Bool-cases (j == k)) [
    | inl same ↦ absurd (ground (arith, lookup-erase k j m))
    | inr other ↦ (other, ground (arith, lookup-erase k j m))
  ]

  pub insert_other :
      (k j : ℕ) (v : V) (m : Dict V) → (j == k) ≡ false → lookup j (insert k v m) ≡ lookup j m
  insert_other k j v m other =
      lookup-insert k j v m ∙ ap (λ b. if b then some v else lookup j m) other

  pub insert_self : (k : ℕ) (v : V) (m : Dict V) → lookup k (insert k v m) ≡ some v
  insert_self k v m = ground (arith, lookup-insert k k v m)

  pub erase_other : (k j : ℕ) (m : Dict V) → (j == k) ≡ false → lookup j (erase k m) ≡ lookup j m
  erase_other k j m other = lookup-erase k j m ∙ ap (λ b. if b then none else lookup j m) other
