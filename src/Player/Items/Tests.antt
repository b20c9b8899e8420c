-- ===== src/Player/Items/Tests.antt =====
-- A wounded player with three potions drinks two of them.
use ll2games_rpg.Prelude.{ℕ, ◌≡◌, ◌==◌, refl, true, none, some, [], if◌then◌else◌}
use ll2games_rpg.Prelude.Int.{ℤ, pos, ◌+ℤ◌}
use ll2games_rpg.Prelude.Dict.{lookup}
use ll2games_rpg.Inventory.{has_items_by_slot}
use ll2games_rpg.InventoryManager.{ItemInitData, Inventories, get_inventory}
use ll2games_rpg.InventoryManager.Held.{held_all}
use ll2games_rpg.InventoryManager.Tests.{items, bag, bags}
use ll2games_rpg.Player.{Player, idle}
use ll2games_rpg.Player.Items.{
  UseItem, ItemUser, is_consumable, can_use_item, apply_effect, use_item, get_item_count,
}
use ll2games_rpg.Player.Items.Use.{can_use-use_item}

abbrev wounded : Player
wounded = record {
  state = idle;
  root_job = 1;
  learned_skills = [];
  cooldown_end_ms = [];
  cur_hp = pos 5;
  max_hp = pos 80;
  cur_mp = pos 12;
  max_mp = pos 30;
  next_contact = none;
  contact_cooldown_ms = 1000;
}

abbrev drinker : ItemUser
drinker = record { player = wounded; inventories = bags 7 (pos 3) }

abbrev drink : ℕ → ℤ → UseItem
drink t n = record { inventory_type = t; slot_pos = 0; item_id = 7; use_count = n }

no_inventory : get_item_count 4 0 7 drinker ≡ none
unfolding get_item_count get_inventory
no_inventory = refl

can_drink : can_use_item items (drink 1 (pos 2)) drinker ≡ some true
unfolding can_use_item get_inventory is_consumable has_items_by_slot
can_drink = refl

can_use-use_item_example :
    (def : ItemInitData) × (after : Inventories) × (lookup 7 items ≡ some def)
    × (use_item items (drink 1 (pos 2)) drinker
        ≡ some (
          record { player = apply_effect def.use_effect (pos 2) wounded; inventories = after },
          true,
        ))
    × (held_all 7 after +ℤ (if 7 == 7 then pos 2 else pos 0) ≡ held_all 7 (bags 7 (pos 3)))
unfolding get_inventory
can_use-use_item_example =
    can_use-use_item items (drink 1 (pos 2)) drinker (bag 7 (pos 3)) 7 can_drink refl (refl, tt)
