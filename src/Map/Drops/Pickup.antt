-- ===== src/Map/Drops/Pickup.antt =====
-- What a player gets by picking up a drop.
use ll2games_rpg.Prelude.{
  ℕ, suc, ◌≡◌, ◌≢◌, ◌==◌, ◌∙◌, ap, Bool, true, false, ◌⊎◌, none, some, List, arith, if◌then◌else◌,
}
use ll2games_rpg.Prelude.Int.{pos, ◌+ℤ◌, ◌<ℤ◌, eqb_ℤ, eq_of_parts}
use ll2games_rpg.Prelude.Dict.{lookup, erase, lookup-erase}
use ll2games_rpg.Inventory.{AddItemResult}
use ll2games_rpg.InventoryManager.{Items, Inventories}
use ll2games_rpg.InventoryManager
use ll2games_rpg.InventoryManager.Held.{held_all, manager_add_item_conserves}
use ll2games_rpg.Map.Drops.{DropItems, Ground, owned_by_other, take_drop, pickup_drop_item}

-- What a pickup that succeeds has found.
found :
    (items : Items) (reach : Bool) (p k : ℕ) (ms : Inventories) (results : List AddItemResult)
    (g : Ground) (d : DropItems)
    → lookup k g.drop_items ≡ some d
    → (pickup_drop_item items reach (some p) k ms results g).picked ≡ true
    → (owned_by_other p d ≡ false)
      × (pickup_drop_item items reach (some p) k ms results g ≡ take_drop items k d ms results g)
unfolding pickup_drop_item
found items reach p k ms results g d there ok = ground arith

-- What `AddItem` answers about one drop.
module _ (items : Items) (ms : Inventories) (results : List AddItemResult) (d : DropItems)
    (real : d.item_id ≢ 0) (some_count : pos 0 <ℤ d.count) where
  abbrev added_items : InventoryManager.AddedItems
  added_items = InventoryManager.add_item items d.item_id d.count results ms

  drop_added :
      added_items.added
      ≡ eqb_ℤ (held_all d.item_id added_items.inventories) (held_all d.item_id ms +ℤ d.count)
  drop_added =
      (manager_add_item_conserves items d.item_id d.count results ms (suc d.item_id) real some_count
        (λ e. omega (arith, e)) (λ e. omega (arith, e))).1

  drop_all :
      added_items.added ≡ true
      → held_all d.item_id added_items.inventories ≡ held_all d.item_id ms +ℤ d.count
  drop_all ok = eq_of_parts _ _ (ground (arith, drop_added))

owner_is :
    (p : ℕ) (d : DropItems) → owned_by_other p d ≡ false → (d.owner ≡ none) ⊎ (d.owner ≡ some p)
unfolding owned_by_other
owner_is p d h = ground arith

-- A pickup that succeeds, of a drop with some count, is of a drop that is free or the player's own.
-- The player then holds exactly its count more of the item, the drop is gone, and every other drop
-- lies where it was.
pub pickup_gives :
    (items : Items) (reach : Bool) (p k j : ℕ) (ms : Inventories) (results : List AddItemResult)
    (g : Ground) (d : DropItems)
    → lookup k g.drop_items ≡ some d
    → d.item_id ≢ 0
    → pos 0 <ℤ d.count
    → (pickup_drop_item items reach (some p) k ms results g).picked ≡ true
    → let out = pickup_drop_item items reach (some p) k ms results g in
      ((d.owner ≡ none) ⊎ (d.owner ≡ some p))
      × (held_all d.item_id out.inventories ≡ held_all d.item_id ms +ℤ d.count)
      × (lookup j out.ground.drop_items ≡ (if j == k then none else lookup j g.drop_items))
unfolding take_drop
pickup_gives items reach p k j ms results g d there real some_count ok =
    let (free, taken) = found items reach p k ms results g d there ok in
    let added : (InventoryManager.add_item items d.item_id d.count results ms).added ≡ true =
      rw taken at ok in
    (
      owner_is p d free,
      ap (λ o. held_all d.item_id o.inventories) taken
          ∙ drop_all items ms results d real some_count added,
      ap (λ o. lookup j o.ground.drop_items) taken
          ∙ ap
              (λ b.
                lookup j
                  (if b then record g { drop_items = erase k g.drop_items } else g).drop_items)
              added
          ∙ lookup-erase k j g.drop_items,
    )
