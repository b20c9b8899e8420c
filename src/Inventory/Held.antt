-- ===== src/Inventory/Held.antt =====
-- How much of an item the slots of an inventory hold, and what one write changes of it.
use ll2games_rpg.Prelude.{
  ℕ, ◌≡◌, ◌≢◌, ◌==◌, refl, true, inl, inr, Bool-cases, none, some, [], ◌∷◌, arith, if◌then◌else◌,
}
use ll2games_rpg.Prelude.Int.{ℤ, pos, ◌+ℤ◌, int_laws, eq_parts, eq_of_parts}
use ll2games_rpg.Prelude.Dict.{lookup, insert, erase}
use ll2games_rpg.Inventory.{InventorySlot, Slots}

unfoldable pub count_of : ℕ → InventorySlot → ℤ
count_of y s = if s.item_id == y then s.item_count else pos 0

pub count_of_self : (y : ℕ) (s : InventorySlot) → s.item_id ≡ y → count_of y s ≡ s.item_count
unfolding count_of
count_of_self y s h = ground arith

pub count_of_other : (y : ℕ) (s : InventorySlot) → y ≢ s.item_id → count_of y s ≡ pos 0
unfolding count_of
count_of_other y s h = ground arith

-- The sum of the counts of the slots that hold item `y`.
unfoldable pub held : ℕ → Slots → ℤ
held y [] = pos 0
held y ((_, s) ∷ m) = count_of y s +ℤ held y m

pub held-insert :
    (y k : ℕ) (v old : InventorySlot) (m : Slots)
    → lookup k m ≡ some old
    → held y (insert k v m) +ℤ count_of y old ≡ held y m +ℤ count_of y v
unfolding held
held-insert y k v old [] e = cc
held-insert y k v old ((j, s) ∷ m) e = elim (Bool-cases (k == j)) [
  | inl same ↦ rw same (rw (old_is same) (omega int_laws))
  | inr other ↦ rw other (omega (int_laws, eq_parts (held-insert y k v old m (ground arith))))
]
  where
    old_is : (k == j) ≡ true → s ≡ old
    old_is same = ground arith

-- The keys of the table are distinct.
abbrev pub IsTable : Slots → Type 0
IsTable [] = Unit {0}
IsTable ((k, s) ∷ m) = (lookup k m ≡ none) × IsTable m

erase-missing : (k : ℕ) (m : Slots) → lookup k m ≡ none → erase k m ≡ m
erase-missing k [] e = refl
erase-missing k ((j, s) ∷ m) e = ground (arith, erase-missing k m)

pub held-erase :
    (y k : ℕ) (old : InventorySlot) (m : Slots)
    → IsTable m
    → lookup k m ≡ some old
    → held y (erase k m) +ℤ count_of y old ≡ held y m
unfolding held
held-erase y k old [] t e = cc
held-erase y k old ((j, s) ∷ m) t e = elim (Bool-cases (k == j)) [
  | inl same ↦ rw same (rw (last same, old_is same) (eq_of_parts _ _ (omega int_laws)))
  | inr other ↦
      rw other
        (eq_of_parts _ _ (omega (int_laws, eq_parts (held-erase y k old m t.1 (ground arith)))))
]
  where
    old_is : (k == j) ≡ true → s ≡ old
    old_is same = ground arith

    last : (k == j) ≡ true → erase k m ≡ m
    last same = erase-missing k m (ground arith)
