-- ===== src/Inventory/Init.antt =====
-- The constructor `Inventory::Inventory`.
use ll2games_rpg.Prelude.{ℕ, zero, suc, ◌+◌, ◌≡◌, ◌&&◌, none, some, arith, ltb, leb, if◌then◌else◌}
use ll2games_rpg.Prelude.Int.{pos, pos_part, leb_ℤ}
use ll2games_rpg.Prelude.Dict.{lookup}
use ll2games_rpg.Inventory.{InventorySlot, InventoryMetaInfo, init, init_slots, find_slot}

abbrev fresh_slot : InventoryMetaInfo → ℕ → InventorySlot
fresh_slot meta k = record {
  inventory_type = meta.inventory_type;
  slot_pos = k;
  item_id = 0;
  item_count = pos 0;
  is_enable = leb_ℤ (pos k) meta.current_slots_size;
}

lookup-init_slots :
    (meta : InventoryMetaInfo) (n i k : ℕ)
    → lookup k (init_slots meta n i)
      ≡ (if leb i k && ltb k (i + n) then some (fresh_slot meta k) else none)
unfolding init_slots
lookup-init_slots meta zero i k = ground arith
lookup-init_slots meta (suc n) i k = ground (arith, lookup-init_slots meta n (i + 1) k)

-- A new inventory has one empty slot at each position below the maximum and none elsewhere. The
-- slots from 0 up to the current size, that size included, are the enabled ones: one more than the
-- size says, while the maximum allows it.
pub find_slot-init :
    (meta : InventoryMetaInfo) (k : ℕ)
    → find_slot (init meta) k ≡ (
        if ltb k (pos_part meta.max_slots)
        then some (record {
          inventory_type = meta.inventory_type;
          slot_pos = k;
          item_id = 0;
          item_count = pos 0;
          is_enable = leb_ℤ (pos k) meta.current_slots_size;
        })
        else none)
unfolding find_slot init
find_slot-init meta k = ground (arith, lookup-init_slots meta (pos_part meta.max_slots) 0 k)
