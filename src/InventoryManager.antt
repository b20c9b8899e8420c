-- ===== src/InventoryManager.antt =====
-- SERVER/src/CHANNEL/manager/InventoryManager.cpp: a player's inventories by their type, over the
-- model of one inventory. `ItemManager::Find` is the look-up in the table of item data.
pub mod Held
pub mod Tests
use ll2games_rpg.Prelude.{ℕ, Bool, true, false, Option, none, some, List, [], ◌∷◌, ◌++◌, map}
use ll2games_rpg.Prelude.Int.{ℤ, pos}
use ll2games_rpg.Prelude.Dict.{Dict, lookup, insert}
use ll2games_rpg.Inventory.{
  Inventory, InventorySlot, InventoryMetaInfo, InventoryItemInfo, InventorySlotUpdate, MoveItem,
  AddItemData, AddItemResult, AddOutcome, make_item_infos, move_item_slot,
}
use ll2games_rpg.Inventory

-- The texts that `ConvertItemTypeToInventoryType` knows.
pub data ItemType : Type 0 where
  equip consumable etc setup cash unknown_type : ItemType

pub record UseEffect : Type 0 where
  pub hp_restore : ℤ
  pub mp_restore : ℤ

-- What the code reads of an ItemInitData.
pub record ItemInitData : Type 0 where
  pub item_type : ItemType
  pub stackable : Bool
  pub max_stack : ℤ
  pub use_effect : Option UseEffect

abbrev pub Items : Type 0
Items = Dict ItemInitData

abbrev pub Inventories : Type 0
Inventories = Dict Inventory

-- `none` is the source's -1, a type that no inventory has.
unfoldable pub convert_item_type_to_inventory_type : ItemType → Option ℕ
convert_item_type_to_inventory_type equip = some 0
convert_item_type_to_inventory_type consumable = some 1
convert_item_type_to_inventory_type etc = some 2
convert_item_type_to_inventory_type setup = some 3
convert_item_type_to_inventory_type cash = some 4
convert_item_type_to_inventory_type unknown_type = none

-- `emplace` at a key that is not there.
abbrev emplace : InventoryMetaInfo → Inventories → Inventories
emplace meta ms = insert meta.inventory_type (Inventory.init meta) ms

pub create_inventory : InventoryMetaInfo → Inventories → Inventories × Bool
create_inventory meta ms = elim (lookup meta.inventory_type ms) [
  | some inventory ↦ (ms, false)
  | none ↦ (emplace meta ms, true)
]

pub ensure_inventory : InventoryMetaInfo → Inventories → Inventories
ensure_inventory meta ms = elim (lookup meta.inventory_type ms) [
  | some inventory ↦ ms
  | none ↦ emplace meta ms
]

-- The first argument is `moveData.inventorytype`.
pub move_item_slots :
    ℕ
    → MoveItem
    → List InventorySlotUpdate
    → Inventories
    → Inventories × List InventorySlotUpdate × Bool
move_item_slots inventory_type move updates ms = elim (lookup inventory_type ms) [
  | none ↦ (ms, updates, false)
  | some inventory ↦
      let (inventory', updates', moved) = move_item_slot inventory move updates in
      (insert inventory_type inventory' ms, updates', moved)
]

pub record AddedItems : Type 0 where
  pub inventories : Inventories
  pub results : List AddItemResult
  pub added : Bool

unfoldable pub add_item_data : ℕ → ℤ → ItemInitData → AddItemData
add_item_data item_id count item = record {
  item_id = item_id;
  count = count;
  stackable = item.stackable;
  max_stack = item.max_stack;
}

-- The inventory changes in its place, also when it answers false.
abbrev put_back : ℕ → Inventories → AddOutcome → AddedItems
put_back inventory_type ms out = record {
  inventories = insert inventory_type out.inventory ms;
  results = out.results;
  added = out.added;
}

-- The inventory that the item's type belongs to.
unfoldable pub inventory_for : ItemInitData → Inventories → Option (ℕ × Inventory)
inventory_for item ms = elim (convert_item_type_to_inventory_type item.item_type) [
  | none ↦ none
  | some inventory_type ↦ elim (lookup inventory_type ms) [
    | none ↦ none
    | some inventory ↦ some (inventory_type, inventory)
  ]
]

unfoldable pub add_item : Items → ℕ → ℤ → List AddItemResult → Inventories → AddedItems
unfolding add_item_data
add_item items item_id count results ms = elim (lookup item_id items) [
  | none ↦ record { inventories = ms; results = results; added = false }
  | some item ↦ elim (inventory_for item ms) [
    | none ↦ record { inventories = ms; results = results; added = false }
    | some (inventory_type, inventory) ↦
        put_back inventory_type ms
          (Inventory.add_item inventory (add_item_data item_id count item) results)
  ]
]

unfoldable pub get_inventory : ℕ → Inventories → Option Inventory
get_inventory inventory_type ms = lookup inventory_type ms

pub find_slot : ℕ → ℕ → Inventories → Option InventorySlot
find_slot inventory_type slot_pos ms = elim (lookup inventory_type ms) [
  | none ↦ none
  | some inventory ↦ Inventory.find_slot inventory slot_pos
]

meta_info : ℕ × Inventory → InventoryMetaInfo
meta_info (_, inventory) = record {
  inventory_type = inventory.inventory_type;
  max_slots = inventory.max_slot;
  current_slots_size = inventory.current_slot_size;
}

pub get_all_meta_infos : Inventories → List InventoryMetaInfo
unfolding meta_info
get_all_meta_infos ms = map meta_info ms

pub get_all_item_infos : Inventories → List InventoryItemInfo
get_all_item_infos [] = []
get_all_item_infos ((_, inventory) ∷ ms) = make_item_infos inventory ++ get_all_item_infos ms

pub clear : Inventories → Inventories
clear ms = []
