-- ===== src/QuickSlot.antt =====
-- SERVER/src/CHANNEL/manager/QuickSlotManager.cpp and SERVER/include/COMMON/Slot_Info.h.
-- The table `m_quickSlots` has the keys that Init makes, which are not negative.
pub mod Unique
pub mod Indexed
mod Tests
use ll2games_rpg.Prelude.{
  ℕ, zero, suc, Bool, true, false, Option, none, some, List, [], ◌∷◌, ◌++◌, ◌==◌, ◌&&◌,
  if◌then◌else◌,
}
use ll2games_rpg.Prelude.Int.{ℤ, pos, negsuc, eqb_ℤ}
use ll2games_rpg.Prelude.Dict.{Dict, lookup, insert}

pub data QuickSlotType : Type 0 where
  none_type skill item ui emote : QuickSlotType

pub record QuickSlotData : Type 0 where
  pub slot_index : ℤ
  pub slot_type : QuickSlotType
  pub ref_id : ℤ
  pub inventory_type : ℤ
  pub inventory_slot_pos : ℤ
  pub count : ℤ

abbrev pub Slots : Type 0
Slots = Dict QuickSlotData

-- `QuickSlot::SetSlotType`
pub set_slot_type : ℕ → QuickSlotType
set_slot_type n =
    if n == 1
    then skill
    else if n == 2
    then item
    else if n == 3
    then ui
    else if n == 4
    then emote
    else none_type

-- `QuickSlotData{}`, with the given index.
pub empty_slot : ℤ → QuickSlotData
empty_slot i = record {
  slot_index = i;
  slot_type = none_type;
  ref_id = pos 0;
  inventory_type = pos 0;
  inventory_slot_pos = pos 0;
  count = pos 0;
}

abbrev pub max_slot_count : ℕ
max_slot_count = 32

-- The loop of Init, for the last `n` slots.
pub init_from : ℕ → ℕ → Slots
init_from i zero = []
init_from i (suc n) = (i, empty_slot (pos i)) ∷ init_from (suc i) n

pub init : Slots
init = init_from 0 max_slot_count

pub is_same_target : QuickSlotData → QuickSlotData → Bool
is_same_target a b = elim a.slot_type [
  | skill ↦ elim b.slot_type [ skill ↦ eqb_ℤ a.ref_id b.ref_id | _ ↦ false ]
  | item ↦ elim b.slot_type [ item ↦ eqb_ℤ a.ref_id b.ref_id | _ ↦ false ]
  | _ ↦ false
]

-- The loop of SetSlot: it empties the other slots with the same target, and lists them.
pub clear_same : ℕ → QuickSlotData → Slots → Slots × List QuickSlotData
clear_same k slot [] = ([], [])
clear_same k slot ((j, d) ∷ m) =
    let (m', changed) = clear_same k slot m in
    if j == k
    then ((j, d) ∷ m', changed)
    else if is_same_target d slot
    then ((j, empty_slot (pos j)) ∷ m', empty_slot (pos j) ∷ changed)
    else ((j, d) ∷ m', changed)

-- SetSlot with its two guards, for the index that the slot carries.
pub set_slot_at : ℤ → QuickSlotData → Slots → Slots × List QuickSlotData
set_slot_at (negsuc n) slot m = (m, [])
set_slot_at (pos k) slot m = elim (lookup k m) [
  | none ↦ (m, [])
  | some old ↦ let (m', changed) = clear_same k slot m in (insert k slot m', changed ++ slot ∷ [])
]

-- Both results: the table, and the slots to tell the client about.
pub set_slot : QuickSlotData → Slots → Slots × List QuickSlotData
set_slot slot m = set_slot_at slot.slot_index slot m

-- Writes a slot that is there.
pub overwrite : ℤ → QuickSlotData → Slots → Slots
overwrite (negsuc n) d m = m
overwrite (pos k) d m = elim (lookup k m) [ none ↦ m | some old ↦ insert k d m ]

-- RemoveSlot writes `QuickSlotData{}`, whose index is 0; ClearSlot keeps the index.
pub remove_slot : ℤ → Slots → Slots
remove_slot i m = overwrite i (empty_slot (pos 0)) m

pub clear_slot : ℤ → Slots → Slots
clear_slot i m = overwrite i (empty_slot i) m

-- A null pointer for an index that is not in the table.
pub get_slot : ℤ → Slots → Option QuickSlotData
get_slot (negsuc n) m = none
get_slot (pos k) m = lookup k m

pub get_slot_list : Slots → List QuickSlotData
get_slot_list [] = []
get_slot_list ((k, d) ∷ m) = d ∷ get_slot_list m
