-- ===== src/InventoryManager/Tests.antt =====
-- Runs of a player with one inventory, for consumables.
use ll2games_rpg.Prelude.{ℕ, ◌≡◌, refl, true, false, none, some, [], ◌∷◌, arith}
use ll2games_rpg.Prelude.Int.{ℤ, pos, ◌+ℤ◌, ◌≤ℤ◌, eqb_ℤ}
use ll2games_rpg.Inventory.{Inventory, MoveItem}
use ll2games_rpg.InventoryManager.{
  consumable, ItemInitData, Items, Inventories, add_item, create_inventory, ensure_inventory,
  move_item_slots, get_all_item_infos, find_slot, get_all_meta_infos, meta_info, clear,
}
use ll2games_rpg.InventoryManager.Held.{held_all, manager_add_item_conserves}

abbrev pub potion : ItemInitData
potion = record {
  item_type = consumable;
  stackable = true;
  max_stack = pos 4;
  use_effect = some (record { hp_restore = pos 30; mp_restore = pos 0 });
}

abbrev pub items : Items
items = (7, potion) ∷ []

abbrev pub bag : ℕ → ℤ → Inventory
bag id n = record {
  slots =
      (
        0,
        record { inventory_type = 1; slot_pos = 0; item_id = id; item_count = n; is_enable = true },
      )
      ∷ [];
  inventory_type = 1;
  max_slot = pos 1;
  current_slot_size = pos 1;
}

abbrev pub bags : ℕ → ℤ → Inventories
bags id n = (1, bag id n) ∷ []

abbrev to_second : MoveItem
to_second = record { from_slot_pos = 0; to_slot_pos = 1 }

no_second_inventory :
    create_inventory
      (record { inventory_type = 1; max_slots = pos 9; current_slots_size = pos 9 })
      (bags 7 (pos 3))
    ≡ (bags 7 (pos 3), false)
unfolding create_inventory
no_second_inventory = refl

ensured :
    ensure_inventory
      (record { inventory_type = 1; max_slots = pos 9; current_slots_size = pos 9 })
      (bags 7 (pos 3))
    ≡ bags 7 (pos 3)
unfolding ensure_inventory
ensured = refl

moved_nowhere : move_item_slots 2 to_second [] (bags 7 (pos 3)) ≡ (bags 7 (pos 3), [], false)
unfolding move_item_slots
moved_nowhere = refl

nothing_there : find_slot 3 0 (bags 7 (pos 3)) ≡ none
unfolding find_slot
nothing_there = refl

one_info :
    get_all_meta_infos (bags 7 (pos 3))
    ≡ record { inventory_type = 1; max_slots = pos 1; current_slots_size = pos 1 } ∷ []
unfolding get_all_meta_infos meta_info
one_info = refl

no_infos : get_all_item_infos (clear (bags 7 (pos 3))) ≡ []
unfolding get_all_item_infos clear
no_infos = refl

manager_add_item_conserves_example :
    let out = add_item items 7 (pos 5) [] (bags 7 (pos 3)) in
    (held_all 7 out.inventories ≤ℤ held_all 7 (bags 7 (pos 3)) +ℤ pos 5)
    × (out.added ≡ eqb_ℤ (held_all 7 out.inventories) (held_all 7 (bags 7 (pos 3)) +ℤ pos 5))
    × (held_all 9 out.inventories ≡ held_all 9 (bags 7 (pos 3)))
manager_add_item_conserves_example =
    manager_add_item_conserves items 7 (pos 5) [] (bags 7 (pos 3)) 9 (λ e. omega (arith, e))
      (omega arith) (λ e. omega (arith, e)) (λ e. omega (arith, e))
