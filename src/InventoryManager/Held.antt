-- ===== src/InventoryManager/Held.antt =====
-- How much a player holds in all inventories together, and what adding an item does to it.
use ll2games_rpg.Prelude.{
  ℕ, ◌≡◌, ◌≢◌, ◌==◌, refl, ◌∙◌, true, false, inl, inr, Bool-cases, Option-cases, some, List, [],
  ◌∷◌, arith,
}
use ll2games_rpg.Prelude.Int.{
  ℤ, pos, ◌+ℤ◌, ◌≤ℤ◌, ◌<ℤ◌, eqb_ℤ, int_laws, eq_parts, eq_of_parts, +ℤ_parts,
}
use ll2games_rpg.Prelude.Dict.{lookup, insert}
use ll2games_rpg.Inventory.{Inventory, AddItemResult}
use ll2games_rpg.Inventory
use ll2games_rpg.Inventory.Held.{held}
use ll2games_rpg.Inventory.AddItem.{add_item_conserves}
use ll2games_rpg.Inventory.Frame.{add_item_others}
use ll2games_rpg.InventoryManager.{
  ItemInitData, Items, Inventories, add_item_data, inventory_for, add_item,
  convert_item_type_to_inventory_type,
}

unfoldable pub held_all : ℕ → Inventories → ℤ
held_all y [] = pos 0
held_all y ((_, inventory) ∷ ms) = held y inventory.slots +ℤ held_all y ms

pub held_all-insert :
    (y k : ℕ) (v old : Inventory) (ms : Inventories)
    → lookup k ms ≡ some old
    → held_all y (insert k v ms) +ℤ held y old.slots ≡ held_all y ms +ℤ held y v.slots
unfolding held_all
held_all-insert y k v old [] e = cc
held_all-insert y k v old ((j, s) ∷ ms) e = elim (Bool-cases (k == j)) [
  | inl same ↦ rw same (rw (old_is same) (omega int_laws))
  | inr other ↦ rw other (omega (int_laws, eq_parts (held_all-insert y k v old ms (ground arith))))
]
  where
    old_is : (k == j) ≡ true → s ≡ old
    old_is same = ground arith

inventory_for_found :
    (item : ItemInitData) (ms : Inventories) (k : ℕ) (inv : Inventory)
    → inventory_for item ms ≡ some (k, inv)
    → lookup k ms ≡ some inv
unfolding inventory_for
inventory_for_found item ms k inv e =
    elim (Option-cases (convert_item_type_to_inventory_type item.item_type)) [
      | inl none_type ↦ absurd (ground arith)
      | inr (t, is) ↦ elim (Option-cases (lookup t ms)) [
        | inl nowhere ↦ absurd (ground arith)
        | inr (there, found) ↦ ground arith
      ]
    ]

nothing_given : (a count : ℤ) → pos 0 <ℤ count → false ≡ eqb_ℤ a (a +ℤ count)
nothing_given a count h = ground (arith, +ℤ_parts a count)

-- The same amount is missing from one inventory and from all of them.
same_missing :
    (one one' all all' count : ℤ)
    → all' +ℤ one ≡ all +ℤ one'
    → eqb_ℤ one' (one +ℤ count) ≡ eqb_ℤ all' (all +ℤ count)
same_missing one one' all all' count e = ground (
  arith,
  eq_parts e,
  +ℤ_parts one count,
  +ℤ_parts all count,
  +ℤ_parts all' one,
  +ℤ_parts all one',
)

-- For a positive count and any table of items, `InventoryManager::AddItem` never gives the player more
-- than the count, answers true exactly when it gave all of it, and changes how much the player holds
-- of nothing else.
pub manager_add_item_conserves :
    (items : Items) (id : ℕ) (count : ℤ) (results : List AddItemResult) (ms : Inventories) (y : ℕ)
    → id ≢ 0
    → pos 0 <ℤ count
    → y ≢ id
    → y ≢ 0
    → let out = add_item items id count results ms in
      (held_all id out.inventories ≤ℤ held_all id ms +ℤ count)
      × (out.added ≡ eqb_ℤ (held_all id out.inventories) (held_all id ms +ℤ count))
      × (held_all y out.inventories ≡ held_all y ms)
unfolding add_item_data add_item
manager_add_item_conserves items id count results ms y real positive other real_y =
    elim (Option-cases (lookup id items)) [
      | inl unknown ↦
          rw (unknown, add_item)
            (omega int_laws, nothing_given (held_all id ms) count positive, refl)
      | inr (item, e) ↦ elim (Option-cases (inventory_for item ms)) [
        | inl nowhere ↦
            rw (e, nowhere, add_item)
              (omega int_laws, nothing_given (held_all id ms) count positive, refl)
        | inr ((k, inv), found) ↦
            let d = add_item_data id count item in
            let out = Inventory.add_item inv d results in
            let (most, answer) = add_item_conserves inv d results real positive in
            let same = add_item_others inv d results y other real_y in
            let there = inventory_for_found item ms k inv found in
            let more = held_all-insert id k out.inventory inv ms there in
            let rest = held_all-insert y k out.inventory inv ms there in
            rw (e, found, add_item)
              (
                omega (int_laws, eq_parts more),
                answer
                    ∙ same_missing (held id inv.slots) (held id out.inventory.slots)
                        (held_all id ms) _ count more,
                eq_of_parts _ _ (omega (int_laws, eq_parts rest, eq_parts same)),
              )
      ]
    ]
