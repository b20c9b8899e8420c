-- ===== src/Map/Drops/Tests.antt =====
-- A drop of four potions, and bags with room for one of them and for all of them.
use ll2games_rpg.Prelude.{
  ℕ, ◌+◌, ◌≤◌, ◌<◌, ◌≡◌, ◌==◌, refl, ◌⊎◌, true, none, some, [], ◌∷◌, arith, if◌then◌else◌,
}
use ll2games_rpg.Prelude.Int.{pos, ◌+ℤ◌, ◌-ℤ◌}
use ll2games_rpg.Prelude.Dict.{lookup}
use ll2games_rpg.Inventory.{
  put_in, fill_stack, fill_empty, each_slot, fill_rest, add_loops, add_item,
}
use ll2games_rpg.InventoryManager
use ll2games_rpg.InventoryManager.{
  Inventories, add_item_data, inventory_for, convert_item_type_to_inventory_type,
}
use ll2games_rpg.InventoryManager.Held.{held_all}
use ll2games_rpg.InventoryManager.Tests.{items, bags}
use ll2games_rpg.Drop.{item, DropResult}
use ll2games_rpg.Map.Drops.{
  DropItems, Ground, Picked, dropped, spawn_drop_item, pickup_drop_item, check_drop_item,
  check_items, owned_by_other, take_drop, release,
}
use ll2games_rpg.Map.Drops.Pickup.{pickup_gives}
use ll2games_rpg.Map.Drops.Owner.{drop_owner}

abbrev four : DropItems
four = record {
  drop_id = 4;
  drop_type = item;
  item_id = 7;
  count = pos 4;
  expire_time_ms = 121000;
  owner_expire_time_ms = 61000;
  owner = some 1;
}

abbrev field : Ground
field = record { drop_items = (4, four) ∷ []; drop_id = 5 }

abbrev empty_field : Ground
empty_field = record { drop_items = []; drop_id = 4 }

abbrev four_potions : DropResult
four_potions = record { drop_type = item; item_id = 7; count = pos 4 }

-- The player 1 has three potions already, in a slot for four.
abbrev by_full : Ground → Picked
by_full g = pickup_drop_item items true (some 1) 4 (bags 7 (pos 3)) [] g

abbrev by_empty : Ground → Picked
by_empty g = pickup_drop_item items true (some 1) 4 (bags 0 (pos 0)) [] g

got_all : (by_empty field).picked ≡ true
unfolding pickup_drop_item take_drop owned_by_other InventoryManager.add_item inventory_for
    convert_item_type_to_inventory_type add_item_data add_item add_loops fill_rest each_slot
    fill_stack fill_empty put_in ◌-ℤ◌
got_all = refl

pickup_gives_example :
    ((four.owner ≡ none) ⊎ (four.owner ≡ some 1))
    × (held_all 7 (by_empty field).inventories ≡ held_all 7 (bags 0 (pos 0)) +ℤ pos 4)
    × (lookup 4 (by_empty field).ground.drop_items
        ≡ (if 4 == 4 then none else lookup 4 field.drop_items))
pickup_gives_example =
    pickup_gives items true 1 4 4 (bags 0 (pos 0)) [] field four refl (λ e. omega (arith, e))
      (omega arith) got_all

-- After 69 seconds another player picks up.
abbrev later : Ground
later = (check_drop_item 70000 (spawn_drop_item (some 1) 1000 (four_potions ∷ []) empty_field)).0

by_other : (pickup_drop_item items true (some 2) 4 (bags 0 (pos 0)) [] later).picked ≡ true
unfolding pickup_drop_item take_drop owned_by_other InventoryManager.add_item inventory_for
    convert_item_type_to_inventory_type add_item_data add_item add_loops fill_rest each_slot
    fill_stack fill_empty put_in ◌-ℤ◌ check_drop_item spawn_drop_item check_items dropped release
by_other = refl

drop_owner_example : (70000 < 1000 + 120000) × ((◌≡◌ {A = ℕ} 2 1) ⊎ (1000 + 60000 ≤ 70000))
drop_owner_example =
    drop_owner items true 1 2 1000 70000 four_potions [] empty_field (bags 0 (pos 0)) [] tt by_other
