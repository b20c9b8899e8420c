-- ===== src/Inventory/Remove.antt =====
-- `Inventory::RemoveItemBySlot` against `HasItemBySlot`, and the slot that a used-up stack takes
-- with it.
use ll2games_rpg.Prelude.{
  ℕ, ◌≡◌, ◌≢◌, ◌==◌, true, false, inl, inr, none, some, ◌⊎◌, List, arith, if◌then◌else◌, Bool-cases,
  Option-cases,
}
use ll2games_rpg.Prelude.Int.{ℤ, pos, ◌+ℤ◌, ◌-ℤ◌, eqb_ℤ, int_laws, -ℤ_parts, eq_of_parts, eq_parts}
use ll2games_rpg.Prelude.Dict.{lookup, insert, erase, lookup-erase}
use ll2games_rpg.Inventory.{
  InventorySlot, Inventory, InventorySlotUpdate, AddItemData, AddItemResult, MoveItem, add_item,
  find_slot, remove_item_by_slot, has_items_by_slot, get_item_count, move_item_slot,
}
use ll2games_rpg.Inventory.Held.{
  held, held-insert, held-erase, count_of_self, count_of_other, IsTable,
}
use ll2games_rpg.Inventory.Frame.{add_item_two_frames}

-- Removing succeeds exactly when the check `HasItemBySlot` with the same arguments passes, and a
-- removal that fails changes nothing.
pub remove_item_iff_has :
    (inv : Inventory) (k y : ℕ) (n : ℤ)
    → remove_item_by_slot inv k y n ≡ (
        if has_items_by_slot inv k y n
        then ((remove_item_by_slot inv k y n).0, true)
        else (inv, false))
unfolding remove_item_by_slot has_items_by_slot
remove_item_iff_has inv k y n = ground arith

-- What a removal that succeeded found, and how it ended.
remove_item_cases :
    (inv : Inventory) (k y : ℕ) (n : ℤ)
    → (remove_item_by_slot inv k y n).1 ≡ true
    → (s : InventorySlot) × (lookup k inv.slots ≡ some s)
      × (s.item_id ≡ y)
      × (((s.item_count ≡ n)
            × ((remove_item_by_slot inv k y n).0 ≡ record inv { slots = erase k inv.slots }))
          ⊎ ((s.item_count ≢ n)
              × ((remove_item_by_slot inv k y n).0 ≡ record inv {
                slots = insert k (record s { item_count = s.item_count -ℤ n }) inv.slots;
              })))
unfolding remove_item_by_slot
remove_item_cases inv k y n ok = elim (Option-cases (lookup k inv.slots)) [
  | inl e ↦ absurd (refused e)
  | inr (s, e) ↦ elim (Bool-cases (eqb_ℤ (s.item_count -ℤ n) (pos 0))) [
    | inl all ↦ (
      s,
      e,
      ground arith,
      inl (ground (arith, -ℤ_parts s.item_count n, eq_of_parts s.item_count n), ground arith),
    )
    | inr some_left ↦
        (s, e, ground arith, inr (ground (arith, -ℤ_parts s.item_count n), ground arith))
  ]
]
  where
    refused : lookup k inv.slots ≡ none → ⊥
    refused e = ground arith

remove_item_two_cases :
    (inv : Inventory) (k y z : ℕ) (n : ℤ)
    → IsTable inv.slots
    → (remove_item_by_slot inv k y n).1 ≡ true
    → let after = (remove_item_by_slot inv k y n).0.slots in
      (held y after +ℤ n ≡ held y inv.slots) × (z ≢ y → held z after ≡ held z inv.slots)
remove_item_two_cases inv k y z n t ok =
    let (s, e, id, how) = remove_item_cases inv k y n ok in
    elim how [
      | inl (all, r) ↦ rw r (
        eq_of_parts _ _ (
            omega (
              int_laws,
              eq_parts all,
              eq_parts (count_of_self y s id),
              eq_parts (held-erase y k s inv.slots t e),
            )),
        (λ other. eq_of_parts _ _ (
            omega (
              int_laws,
              eq_parts (count_of_other z s (ground arith)),
              eq_parts (held-erase z k s inv.slots t e),
            ))),
      )
      | inr (left, r) ↦
          let s' : InventorySlot = record s { item_count = s.item_count -ℤ n } in
          rw r (
            eq_of_parts _ _ (
                omega (
                  int_laws,
                  eq_parts (count_of_self y s id),
                  eq_parts (count_of_self y s' id),
                  eq_parts (held-insert y k s' s inv.slots e),
                )),
            (λ other. eq_of_parts _ _ (
                omega (
                  int_laws,
                  eq_parts (count_of_other z s (ground arith)),
                  eq_parts (count_of_other z s' (ground arith)),
                  eq_parts (held-insert z k s' s inv.slots e),
                ))),
          )
    ]

-- A removal that succeeds takes exactly the count off the item that it names, on an inventory
-- whose positions are distinct, and leaves every other item as it was.
pub remove_item_takes :
    (inv : Inventory) (k y z : ℕ) (n : ℤ)
    → IsTable inv.slots
    → (remove_item_by_slot inv k y n).1 ≡ true
    → held z (remove_item_by_slot inv k y n).0.slots +ℤ (if z == y then n else pos 0)
      ≡ held z inv.slots
remove_item_takes inv k y z n t ok =
    let (same, other) = remove_item_two_cases inv k y z n t ok in
    elim (Bool-cases (z == y)) [
      | inl e ↦ rw e (let eq : z ≡ y = ground arith in rw eq same)
      | inr e ↦ rw e (eq_of_parts _ _ (omega (int_laws, eq_parts (other (ground arith)))))
    ]

-- Using up a stack loses the slot: no slot is left at its position, whatever is added afterwards
-- does not bring one back, and no item can be moved there.
pub remove_item_loses_slot :
    (inv : Inventory) (k y : ℕ) (n : ℤ) (d : AddItemData) (results : List AddItemResult)
    (move : MoveItem) (updates : List InventorySlotUpdate)
    → (remove_item_by_slot inv k y n).1 ≡ true
    → get_item_count inv k y ≡ n
    → move.to_slot_pos ≡ k
    → let after = (remove_item_by_slot inv k y n).0 in
      (find_slot after k ≡ none)
      × (find_slot (add_item after d results).inventory k ≡ none)
      × (move_item_slot after move updates ≡ (after, updates, false))
unfolding get_item_count find_slot move_item_slot
remove_item_loses_slot inv k y n d results move updates ok all to =
    let (s, e, id, how) = remove_item_cases inv k y n ok in
    elim how [
      | inl (_, r) ↦ rw r (
          let gone : lookup k (erase k inv.slots) ≡ none =
            ground (arith, lookup-erase k k inv.slots) in
          (
            gone,
            (add_item_two_frames (record inv { slots = erase k inv.slots }) d results k).0 gone,
            ground arith,
          ))
      | inr (left, r) ↦ absurd (left (ground arith))
    ]
