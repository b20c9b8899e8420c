-- ===== src/Inventory.antt =====
-- SERVER/src/CHANNEL/domain/Inventory.{h,cpp} and the structs of
-- SERVER/include/COMMON/Inventory_Info.h. Item ids, slot positions and inventory types are only
-- compared, so they are naturals; counts are the integers that the C++ `int`s stand for.
pub mod Held
pub mod AddItem
pub mod Frame
pub mod Remove
pub mod Move
pub mod Full
pub mod Init
mod Tests
use ll2games_rpg.Prelude.{
  ℕ, zero, suc, ◌+◌, Bool, true, false, not, Option, none, some, List, [], ◌∷◌, ◌++◌, map, ◌==◌,
  if◌then◌else◌,
}
use ll2games_rpg.Prelude.Int.{ℤ, pos, pos_part, ◌+ℤ◌, ◌-ℤ◌, ltb_ℤ, leb_ℤ, eqb_ℤ, min_ℤ}
use ll2games_rpg.Prelude.Dict.{Dict, lookup, insert, erase}

pub record InventorySlot : Type 0 where
  pub inventory_type : ℕ
  pub slot_pos : ℕ
  pub item_id : ℕ
  pub item_count : ℤ
  pub is_enable : Bool

pub record InventoryMetaInfo : Type 0 where
  pub inventory_type : ℕ
  pub max_slots : ℤ
  pub current_slots_size : ℤ

pub record InventoryItemInfo : Type 0 where
  pub inventory_type : ℕ
  pub slot_pos : ℕ
  pub item_id : ℕ
  pub item_count : ℤ

pub record InventorySlotUpdate : Type 0 where
  pub slot_pos : ℕ
  pub item_id : ℕ
  pub item_count : ℤ

pub record AddItemData : Type 0 where
  pub item_id : ℕ
  pub count : ℤ
  pub stackable : Bool
  pub max_stack : ℤ

pub record AddItemResult : Type 0 where
  pub inventory_type : ℕ
  pub slot_pos : ℕ
  pub item_id : ℕ
  pub item_count : ℤ

pub record MoveItem : Type 0 where
  pub from_slot_pos : ℕ
  pub to_slot_pos : ℕ

abbrev pub Slots : Type 0
Slots = Dict InventorySlot

pub record Inventory : Type 0 where
  pub slots : Slots
  pub inventory_type : ℕ
  pub max_slot : ℤ
  pub current_slot_size : ℤ

-- The loop of the constructor, from position `i` on.
init_slots : InventoryMetaInfo → ℕ → ℕ → Slots
init_slots meta zero i = []
init_slots meta (suc n) i = (i, slot) ∷ init_slots meta n (i + 1)
  where
    slot : InventorySlot
    slot = record {
      inventory_type = meta.inventory_type;
      slot_pos = i;
      item_id = 0;
      item_count = pos 0;
      is_enable = leb_ℤ (pos i) meta.current_slots_size;
    }

-- Inventory::Inventory. A negative `max_slots` gives no round.
pub init : InventoryMetaInfo → Inventory
unfolding init_slots
init meta = record {
  slots = init_slots meta (pos_part meta.max_slots) 0;
  inventory_type = meta.inventory_type;
  max_slot = meta.max_slots;
  current_slot_size = meta.current_slots_size;
}

-- `isEnable` keeps its default, true.
unfoldable pub set_slot_item : Inventory → ℕ → ℕ → ℤ → Inventory
set_slot_item inv slot_pos item_id count = record inv { slots = insert slot_pos items inv.slots }
  where
    items : InventorySlot
    items = record {
      inventory_type = inv.inventory_type;
      slot_pos = slot_pos;
      item_id = item_id;
      item_count = count;
      is_enable = true;
    }

-- What the loops of `AddItem` change.
pub record Filling : Type 0 where
  pub slots : Slots
  pub remain : ℤ
  pub results : List AddItemResult

-- Both loops write the slot, lower the rest, and report; the flag is their `return true`.
unfoldable pub put_in : AddItemData → ℕ → InventorySlot → ℤ → ℤ → Filling → Filling × Bool
put_in d slot_pos slot item_count add_count f = (
  record {
    slots = insert slot_pos (record slot { item_id = d.item_id; item_count = item_count }) f.slots;
    remain = f.remain -ℤ add_count;
    results =
        f.results
        ++ record {
          inventory_type = slot.inventory_type;
          slot_pos = slot_pos;
          item_id = d.item_id;
          item_count = item_count;
        }
          ∷ [];
  },
  leb_ℤ (f.remain -ℤ add_count) (pos 0),
)

-- One round of the first loop: top up a stack of the same item.
unfoldable pub fill_stack : AddItemData → ℕ → Filling → Filling × Bool
unfolding put_in
fill_stack d slot_pos f = elim (lookup slot_pos f.slots) [
  | none ↦ (f, false)
  | some slot ↦
      if not slot.is_enable
      then (f, false)
      else if not (slot.item_id == d.item_id)
      then (f, false)
      else if leb_ℤ d.max_stack slot.item_count
      then (f, false)
      else (let add_count = min_ℤ (d.max_stack -ℤ slot.item_count) f.remain in
          put_in d slot_pos slot (slot.item_count +ℤ add_count) add_count f)
]

-- One round of the second loop: use an empty slot.
unfoldable pub fill_empty : AddItemData → ℕ → Filling → Filling × Bool
unfolding put_in
fill_empty d slot_pos f = elim (lookup slot_pos f.slots) [
  | none ↦ (f, false)
  | some slot ↦
      if not slot.is_enable
      then (f, false)
      else if not (slot.item_id == 0)
      then (f, false)
      else (let add_count = if d.stackable then min_ℤ d.max_stack f.remain else pos 1 in
          put_in d slot_pos slot add_count add_count f)
]

-- for (slotPos = i; slotPos < i + n; ++slotPos), left early when the body returns.
unfoldable pub each_slot : (ℕ → Filling → Filling × Bool) → ℕ → ℕ → Filling → Filling × Bool
each_slot body zero i f = (f, false)
each_slot body (suc n) i f =
    let (g, done) = body i f in elim done [ true ↦ (g, true) | false ↦ each_slot body n (i + 1) g ]

-- The second loop runs unless the first has returned.
unfoldable pub fill_rest : AddItemData → ℕ → Filling × Bool → Filling × Bool
fill_rest d n (f, true) = (f, true)
fill_rest d n (f, false) = each_slot (fill_empty d) n 0 f

unfoldable pub add_loops : Inventory → AddItemData → Filling → Filling × Bool
add_loops inv d f =
    let rounds = pos_part inv.max_slot in
    fill_rest d rounds (if d.stackable then each_slot (fill_stack d) rounds 0 f else (f, false))

pub record AddOutcome : Type 0 where
  pub inventory : Inventory
  pub results : List AddItemResult
  pub added : Bool

unfoldable pub add_item : Inventory → AddItemData → List AddItemResult → AddOutcome
add_item inv d results =
    if leb_ℤ d.count (pos 0)
    then record { inventory = inv; results = results; added = false }
    else (let (f, done) =
          add_loops inv d (record { slots = inv.slots; remain = d.count; results = results }) in
        record { inventory = record inv { slots = f.slots }; results = f.results; added = done })

-- A slot that runs empty is erased.
pub remove_item_by_slot : Inventory → ℕ → ℕ → ℤ → Inventory × Bool
remove_item_by_slot inv slot_pos item_id count = elim (lookup slot_pos inv.slots) [
  | none ↦ (inv, false)
  | some slot ↦
      if not (slot.item_id == item_id)
      then (inv, false)
      else if ltb_ℤ slot.item_count count
      then (inv, false)
      else if eqb_ℤ (slot.item_count -ℤ count) (pos 0)
      then (record inv { slots = erase slot_pos inv.slots }, true)
      else (
        record inv {
          slots = insert slot_pos (record slot { item_count = slot.item_count -ℤ count }) inv.slots;
        },
        true,
      )
]

-- HasItemBySlot(slotPos, itemId, count)
unfoldable pub has_items_by_slot : Inventory → ℕ → ℕ → ℤ → Bool
has_items_by_slot inv slot_pos item_id count = elim (lookup slot_pos inv.slots) [
  | none ↦ false
  | some slot ↦
      if not (slot.item_id == item_id)
      then false
      else if ltb_ℤ slot.item_count count
      then false
      else true
]

-- HasItemBySlot(slotPos, itemId)
pub has_item_by_slot : Inventory → ℕ → ℕ → Bool
has_item_by_slot inv slot_pos item_id = elim (lookup slot_pos inv.slots) [
  | none ↦ false
  | some slot ↦ if not (slot.item_id == item_id) then false else true
]

pub find_slot : Inventory → ℕ → Option InventorySlot
find_slot inv slot_pos = lookup slot_pos inv.slots

pub get_item_count : Inventory → ℕ → ℕ → ℤ
get_item_count inv slot_pos item_id = elim (lookup slot_pos inv.slots) [
  | none ↦ pos 0
  | some slot ↦ if not (slot.item_id == item_id) then pos 0 else slot.item_count
]

abbrev item_info : Inventory → ℕ × InventorySlot → InventoryItemInfo
item_info inv (_, item) = record {
  inventory_type = inv.inventory_type;
  slot_pos = item.slot_pos;
  item_id = item.item_id;
  item_count = item.item_count;
}

pub make_item_infos : Inventory → List InventoryItemInfo
make_item_infos inv = map (item_info inv) inv.slots

swap_slots : Inventory → MoveItem → InventorySlot → InventorySlot → Inventory
swap_slots inv move from to = record inv {
  slots =
      insert move.to_slot_pos (record to { item_id = from.item_id; item_count = from.item_count })
        (insert move.from_slot_pos
          (record from { item_id = to.item_id; item_count = to.item_count }) inv.slots);
}

-- The error text goes to a copy of the caller's string and is lost, so it is left out.
pub move_item_slot :
    Inventory → MoveItem → List InventorySlotUpdate → Inventory × List InventorySlotUpdate × Bool
unfolding swap_slots
move_item_slot inv move updates =
    if move.from_slot_pos == move.to_slot_pos
    then (inv, updates, false)
    else elim (lookup move.from_slot_pos inv.slots) [
      | none ↦ (inv, updates, false)
      | some from ↦ elim (lookup move.to_slot_pos inv.slots) [
        | none ↦ (inv, updates, false)
        | some to ↦ if from.item_id == 0 then (inv, updates, false) else (
          swap_slots inv move from to,
          updates
              ++ record {
                slot_pos = move.from_slot_pos;
                item_id = to.item_id;
                item_count = to.item_count;
              }
                ∷ record {
                  slot_pos = move.to_slot_pos;
                  item_id = from.item_id;
                  item_count = from.item_count;
                }
                ∷ [],
          true,
        )
      ]
    ]
