-- ===== src/Inventory/Tests.antt =====
-- Runs of an inventory with three slots, the last of them not enabled.
use ll2games_rpg.Prelude.{ℕ, ◌≡◌, ◌==◌, refl, Bool, true, false, [], ◌∷◌, arith, if◌then◌else◌}
use ll2games_rpg.Prelude.Int.{ℤ, pos, ◌+ℤ◌, ◌-ℤ◌, ◌≤ℤ◌, eqb_ℤ}
use ll2games_rpg.Inventory.{
  InventorySlot, Inventory, AddItemData, MoveItem, add_item, remove_item_by_slot, InventoryMetaInfo,
}
use ll2games_rpg.Inventory.Held.{held}
use ll2games_rpg.Inventory.AddItem.{add_item_conserves}
use ll2games_rpg.Inventory.Remove.{remove_item_takes}

abbrev slot : ℕ → ℕ → ℤ → Bool → InventorySlot
slot p i n e = record {
  inventory_type = 1;
  slot_pos = p;
  item_id = i;
  item_count = n;
  is_enable = e;
}

abbrev bag : Inventory
bag = record {
  slots =
      (0, slot 0 7 (pos 3) true) ∷ (1, slot 1 0 (pos 0) true) ∷ (2, slot 2 0 (pos 0) false) ∷ [];
  inventory_type = 1;
  max_slot = pos 3;
  current_slot_size = pos 2;
}

abbrev potions : ℕ → AddItemData
potions n = record { item_id = 7; count = pos n; stackable = true; max_stack = pos 4 }

abbrev to_second : MoveItem
to_second = record { from_slot_pos = 0; to_slot_pos = 1 }

add_item_conserves_example :
    (held 7 (add_item bag (potions 5) []).inventory.slots ≤ℤ held 7 bag.slots +ℤ pos 5)
    × ((add_item bag (potions 5) []).added
        ≡ eqb_ℤ (held 7 (add_item bag (potions 5) []).inventory.slots) (held 7 bag.slots +ℤ pos 5))
add_item_conserves_example = add_item_conserves bag (potions 5) [] (λ e. omega arith) (omega arith)

remove_item_takes_example :
    held 7 (remove_item_by_slot bag 0 7 (pos 2)).0.slots +ℤ (if 7 == 7 then pos 2 else pos 0)
    ≡ held 7 bag.slots
unfolding remove_item_by_slot ◌-ℤ◌
remove_item_takes_example = remove_item_takes bag 0 7 7 (pos 2) (refl, (refl, (refl, tt))) refl

abbrev meta : InventoryMetaInfo
meta = record { inventory_type = 1; max_slots = pos 3; current_slots_size = pos 1 }
