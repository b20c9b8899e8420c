-- ===== src/QuickSlot/Tests.antt =====
-- Runs of the quick slots.
use ll2games_rpg.Prelude.{ℕ, [], ◌∷◌, arith}
use ll2games_rpg.Prelude.Int.{pos}
use ll2games_rpg.QuickSlot.{QuickSlotData, Slots, skill, init}
use ll2games_rpg.QuickSlot.Unique.{IsUnique, sets, clears, changes, quick_slots-IsUnique}
use ll2games_rpg.QuickSlot.Indexed.{IsIndexed}

abbrev fireball : ℕ → QuickSlotData
fireball k = record {
  slot_index = pos k;
  slot_type = skill;
  ref_id = pos 20001;
  inventory_type = pos 0;
  inventory_slot_pos = pos 0;
  count = pos 0;
}

abbrev two_slots : Slots
two_slots = (0, fireball 0) ∷ (1, fireball 1) ∷ []

two_slots-IsIndexed : IsIndexed two_slots
two_slots-IsIndexed j a e = ground arith

quick_slots-IsUnique_example :
    IsUnique (changes (sets (fireball 3) ∷ sets (fireball 5) ∷ clears (pos 3) ∷ []) init)
quick_slots-IsUnique_example =
    quick_slots-IsUnique (sets (fireball 3) ∷ sets (fireball 5) ∷ clears (pos 3) ∷ [])
