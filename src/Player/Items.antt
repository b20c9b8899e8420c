-- ===== src/Player/Items.antt =====
-- SERVER/src/CHANNEL/domain/Player.cpp, CanUseItem, UseItem and GetItemCount: a player with the
-- inventories. The outcome `none` is the read through the null pointer that `GetInventory` returns
-- for a type of which the player has no inventory.
pub mod Use
mod Tests
use ll2games_rpg.Prelude.{ℕ, Bool, true, false, not, Option, none, some, if◌then◌else◌}
use ll2games_rpg.Prelude.Int.{ℤ, pos, ◌*ℤ◌, leb_ℤ}
use ll2games_rpg.Prelude.Dict.{lookup, insert}
use ll2games_rpg.Inventory.{Inventory, remove_item_by_slot, has_items_by_slot, has_item_by_slot}
use ll2games_rpg.Inventory
use ll2games_rpg.InventoryManager.{
  ItemType, consumable, UseEffect, ItemInitData, Items, Inventories, get_inventory,
}
use ll2games_rpg.Player.{Player, add_hp, add_mp}

-- `UseItem` of the C++ code as its three numbers.
pub record UseItem : Type 0 where
  pub inventory_type : ℕ
  pub slot_pos : ℕ
  pub item_id : ℕ
  pub use_count : ℤ

pub record ItemUser : Type 0 where
  pub player : Player
  pub inventories : Inventories

pub is_consumable : ItemType → Bool
is_consumable consumable = true
is_consumable _ = false

pub can_use_item : Items → UseItem → ItemUser → Option Bool
can_use_item items used u =
    if leb_ℤ used.use_count (pos 0) then some false else elim (lookup used.item_id items) [
      | none ↦ some false
      | some def ↦
          if not (is_consumable def.item_type)
          then some false
          else elim (get_inventory used.inventory_type u.inventories) [
            | none ↦ none
            | some inventory ↦
                some (has_items_by_slot inventory used.slot_pos used.item_id used.use_count)
          ]
    ]

pub apply_effect : Option UseEffect → ℤ → Player → Player
apply_effect none use_count p = p
apply_effect (some effect) use_count p =
    add_mp (effect.mp_restore *ℤ use_count) (add_hp (effect.hp_restore *ℤ use_count) p)

pub use_item : Items → UseItem → ItemUser → Option (ItemUser × Bool)
use_item items used u =
    if leb_ℤ used.use_count (pos 0) then some (u, false) else elim (lookup used.item_id items) [
      | none ↦ some (u, false)
      | some def ↦ elim (get_inventory used.inventory_type u.inventories) [
        | none ↦ none
        | some inventory ↦
            let (inventory', removed) =
              remove_item_by_slot inventory used.slot_pos used.item_id used.use_count in
            let inventories = insert used.inventory_type inventory' u.inventories in
            if removed
            then some (
              record {
                player = apply_effect def.use_effect used.use_count u.player;
                inventories = inventories;
              },
              true,
            )
            else some (record u { inventories = inventories }, false)
      ]
    ]

pub get_item_count : ℕ → ℕ → ℕ → ItemUser → Option ℤ
get_item_count inventory_type slot_pos item_id u =
    elim (get_inventory inventory_type u.inventories) [
      | none ↦ none
      | some inventory ↦
          if not (has_item_by_slot inventory slot_pos item_id)
          then some (pos 0)
          else some (Inventory.get_item_count inventory slot_pos item_id)
    ]
