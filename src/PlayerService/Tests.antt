-- ===== src/PlayerService/Tests.antt =====
-- A log-in whose skill query fails, a reload after a trade, and a player with a large id.
use ll2games_rpg.Prelude.{ℕ, ◌≡◌, refl, true, false, none, some, [], ◌∷◌}
use ll2games_rpg.Prelude.Int.{pos}
use ll2games_rpg.Prelude.Dict.{Dict}
use ll2games_rpg.Inventory.{InventorySlot, set_slot_item}
use ll2games_rpg.InventoryManager.{Inventories, get_inventory}
use ll2games_rpg.Database.Pool.{get_connection}
use ll2games_rpg.Database.Statement.{row, Answers, Handles, open_query, with_query}
use ll2games_rpg.PlayerService.{
  ItemRow, load_row, item_rows, load_inventory, SlotRow, slot_data, slot_rows, load_slot_setting,
  Loads, Loaded, load_player_data,
}
use ll2games_rpg.PlayerService.Returned.{Returned, load_player_data-Returned}
use ll2games_rpg.PlayerService.Items.{held_at, load_inventory_slots}

abbrev fine : Answers
fine = record {
  init = true;
  prepare = true;
  bind_param = true;
  execute = true;
  bind_result = true;
  store_result = true;
}

abbrev potion : ItemRow
potion = record { inventory_type = 1; slot_pos = 0; item_id = 2000; item_count = pos 5 }

abbrev item_slot : ℕ → ℕ → InventorySlot
item_slot p id = record {
  inventory_type = 1;
  slot_pos = p;
  item_id = id;
  item_count = pos 3;
  is_enable = true;
}

-- Slot 1 holds an item that the database has no row for any more.
abbrev bag : Inventories
bag =
    (
      1,
      record {
        slots = (0, item_slot 0 2000) ∷ (1, item_slot 1 2001) ∷ [];
        inventory_type = 1;
        max_slot = pos 2;
        current_slot_size = pos 2;
      },
    )
    ∷ []

abbrev potion_slot : SlotRow
potion_slot = record {
  slot_index = some (pos 2);
  slot_type = some 1;
  ref_id = some (pos 2000);
  inventory_type = some (pos 1);
  inventory_slot_pos = some (pos 0);
}

abbrev loads : Loads
loads = record {
  meta_answers = fine;
  metas = [];
  item_answers = fine;
  items = row potion ∷ [];
  skill_answers = record fine { execute = false };
  skills = [];
  slots_queried = true;
  slots_stored = true;
  slots = potion_slot ∷ [];
}

abbrev before : Loaded
before = record {
  handles = record { pool = 1 ∷ 2 ∷ []; statements = 0 };
  inventories = some bag;
  learned_skills = [];
  quick_slots = none;
}

load_player_data-Returned_example :
    (after : Loaded) × (load_player_data loads before ≡ some after)
    × Returned before.handles after.handles
load_player_data-Returned_example =
    load_player_data-Returned loads before ((pos 2, 1, pos 2000, pos 1, pos 0, refl), tt)

-- A row whose last column is null.
throws :
    load_slot_setting true true
      (record potion_slot { inventory_slot_pos = none } ∷ [])
      (before.handles, some [])
    ≡ none
unfolding load_slot_setting slot_rows slot_data get_connection
throws = refl

abbrev idle : Handles
idle = before.handles

all_loaded : (load_inventory fine (row potion ∷ []) (idle, some bag)).2 ≡ true
unfolding load_inventory item_rows load_row get_inventory set_slot_item with_query open_query
    get_connection
all_loaded = refl

load_inventory_slots_example :
    (after : Inventories) × ((load_inventory fine (row potion ∷ []) (idle, some bag)).1
      ≡ some after)
    × (held_at 1 1 after ≡ some (2001, pos 3))
load_inventory_slots_example = load_inventory_slots 1 1 fine (row potion ∷ []) idle bag all_loaded

abbrev players : Dict ℕ
players = (65537, 7) ∷ (1, 8) ∷ []
