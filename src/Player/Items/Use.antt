-- ===== src/Player/Items/Use.antt =====
-- What an item does when it is used, and when its used reads through a null pointer.
use ll2games_rpg.Prelude.{
  ℕ, ◌≡◌, ◌==◌, ◌↔◌, refl, true, false, inl, inr, Bool-cases, Option-cases, none, some, arith,
  if◌then◌else◌,
}
use ll2games_rpg.Prelude.Int.{pos, ◌+ℤ◌, ◌<ℤ◌, leb_ℤ, int_laws, eq_parts, eq_of_parts}
use ll2games_rpg.Prelude.Dict.{lookup, insert}
use ll2games_rpg.Inventory.{Inventory, remove_item_by_slot, has_items_by_slot}
use ll2games_rpg.Inventory.Held.{IsTable}
use ll2games_rpg.Inventory.Remove.{remove_item_takes, remove_item_iff_has}
use ll2games_rpg.InventoryManager.{ItemInitData, Items, Inventories, get_inventory}
use ll2games_rpg.InventoryManager.Held.{held_all, held_all-insert}
use ll2games_rpg.Player.Items.{
  UseItem, ItemUser, is_consumable, can_use_item, apply_effect, use_item,
}

-- What `CanUseItem` has found when it answers true.
record Usable (items : Items) (used : UseItem) (u : ItemUser) : Type 0 where
  def : ItemInitData
  inventory : Inventory
  positive : leb_ℤ used.use_count (pos 0) ≡ false
  known : lookup used.item_id items ≡ some def
  there : get_inventory used.inventory_type u.inventories ≡ some inventory
  holds : has_items_by_slot inventory used.slot_pos used.item_id used.use_count ≡ true

usable :
    (items : Items) (used : UseItem) (u : ItemUser)
    → can_use_item items used u ≡ some true
    → Usable items used u
unfolding can_use_item
usable items used u ok = elim (Bool-cases (leb_ℤ used.use_count (pos 0))) [
  | inl none_used ↦ absurd (ground arith)
  | inr some_used ↦ elim (Option-cases (lookup used.item_id items)) [
    | inl unknown ↦ absurd (ground arith)
    | inr (def, known) ↦ elim (Option-cases (get_inventory used.inventory_type u.inventories)) [
      | inl nowhere ↦ absurd (ground arith)
      | inr (inventory, there) ↦ record {
        def = def;
        inventory = inventory;
        positive = some_used;
        known = known;
        there = there;
        holds = ground arith;
      }
    ]
  ]
]

-- When `CanUseItem` answers true, `UseItem` with the same arguments succeeds: the effect of the item
-- is applied once with the count, exactly the count is taken from what the player holds, on an
-- inventory whose positions are distinct, and no other item is touched.
pub can_use-use_item :
    (items : Items) (used : UseItem) (u : ItemUser) (inv : Inventory) (y : ℕ)
    → can_use_item items used u ≡ some true
    → get_inventory used.inventory_type u.inventories ≡ some inv
    → IsTable inv.slots
    → (def : ItemInitData) × (after : Inventories) × (lookup used.item_id items ≡ some def)
      × (use_item items used u
          ≡ some (
            record {
              player = apply_effect def.use_effect used.use_count u.player;
              inventories = after;
            },
            true,
          ))
      × (held_all y after +ℤ (if y == used.item_id then used.use_count else pos 0)
          ≡ held_all y u.inventories)
unfolding use_item get_inventory
can_use-use_item items used u inv y ok here table =
    let h = usable items used u ok in
    let same : h.inventory ≡ inv = ground (arith, h.there, here) in
    let out = remove_item_by_slot inv used.slot_pos used.item_id used.use_count in
    let removed : out.1 ≡ true =
      ground
        (arith, remove_item_iff_has inv used.slot_pos used.item_id used.use_count, h.holds, same) in
    let taken = remove_item_takes inv used.slot_pos used.item_id y used.use_count table removed in
    let more = held_all-insert y used.inventory_type out.0 inv u.inventories here in
    (
      h.def,
      insert used.inventory_type out.0 u.inventories,
      h.known,
      rw (h.positive, h.known, here, removed, use_item) refl,
      eq_of_parts _ _ (omega (int_laws, eq_parts more, eq_parts taken)),
    )

-- With a positive count of a known consumable, both calls read through a null pointer exactly when the
-- player has no inventory of the type that the request names.
pub use_item_faults :
    (items : Items) (used : UseItem) (u : ItemUser) (def : ItemInitData)
    → pos 0 <ℤ used.use_count
    → lookup used.item_id items ≡ some def
    → is_consumable def.item_type ≡ true
    → ((can_use_item items used u ≡ none)
        ↔ (get_inventory used.inventory_type u.inventories ≡ none))
      × ((use_item items used u ≡ none) ↔ (get_inventory used.inventory_type u.inventories ≡ none))
unfolding can_use_item use_item
use_item_faults items used u def h known eatable = (ground arith, ground arith)
