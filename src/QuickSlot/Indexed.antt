-- ===== src/QuickSlot/Indexed.antt =====
-- The index that a quick slot carries, which the client is sent, is its key in the table.
use ll2games_rpg.Prelude.{ℕ, suc, ◌≡◌, refl, ◌⊎◌, inl, inr, some, [], ◌∷◌, arith, Option-cases, ap}
use ll2games_rpg.Prelude.Int.{ℤ, pos, negsuc, eq_parts}
use ll2games_rpg.Prelude.Dict.{lookup, lookup-insert}
use ll2games_rpg.QuickSlot.{
  QuickSlotData, Slots, empty_slot, clear_same, set_slot, set_slot_at, overwrite, clear_slot,
  remove_slot,
}

abbrev pub IsIndexed : Slots → Type 0
IsIndexed m = (j : ℕ) (a : QuickSlotData) → lookup j m ≡ some a → a.slot_index ≡ pos j

clear_same-lookup :
    (k j : ℕ) (slot : QuickSlotData) (m : Slots) (a : QuickSlotData)
    → lookup j (clear_same k slot m).0 ≡ some a
    → (lookup j m ≡ some a) ⊎ (a ≡ empty_slot (pos j))
unfolding clear_same
clear_same-lookup k j slot [] a e = ground arith
clear_same-lookup k j slot ((i, d) ∷ m) a e = ground (arith, clear_same-lookup k j slot m a)

clear_same-IsIndexed :
    (k : ℕ) (slot : QuickSlotData) (m : Slots) → IsIndexed m → IsIndexed (clear_same k slot m).0
unfolding empty_slot
clear_same-IsIndexed k slot m h j a e = elim (clear_same-lookup k j slot m a e) [
  | inl old ↦ h j a old
  | inr empty ↦ ap (λ (d : QuickSlotData). d.slot_index) empty
]

overwrite-IsIndexed : (i : ℤ) (m : Slots) → IsIndexed m → IsIndexed (overwrite i (empty_slot i) m)
unfolding overwrite empty_slot
overwrite-IsIndexed (negsuc n) m h = h
overwrite-IsIndexed (pos k) m h = elim (Option-cases (lookup k m)) [
  | inl e ↦ rw (overwrite, e) h
  | inr (old, e) ↦
      rw (overwrite, e) (λ j a at. ground (arith, lookup-insert k j (empty_slot (pos k)) m, h j a))
]

set_slot_at-IsIndexed :
    (i : ℤ) (slot : QuickSlotData) (m : Slots)
    → slot.slot_index ≡ i
    → IsIndexed m
    → IsIndexed (set_slot_at i slot m).0
unfolding set_slot_at
set_slot_at-IsIndexed (negsuc n) slot m s h = h
set_slot_at-IsIndexed (pos k) slot m s h = elim (Option-cases (lookup k m)) [
  | inl e ↦ rw (set_slot_at, e) h
  | inr (old, e) ↦
      rw (set_slot_at, e)
        (λ j a at. ground (
          arith,
          lookup-insert k j slot (clear_same k slot m).0,
          clear_same-IsIndexed k slot m h j a,
        ))
]

-- While every slot carries its own index, SetSlot and ClearSlot keep it so.
pub changes_keep_index :
    (m : Slots) (slot : QuickSlotData) (i : ℤ)
    → IsIndexed m
    → IsIndexed (set_slot slot m).0 × IsIndexed (clear_slot i m)
unfolding set_slot clear_slot
changes_keep_index m slot i h =
    (set_slot_at-IsIndexed slot.slot_index slot m refl h, overwrite-IsIndexed i m h)

-- After RemoveSlot on any slot that is there, but for the one with the key 0, not every slot
-- carries its own index.
pub remove_slot_loses_index :
    (m : Slots) (k : ℕ) (a : QuickSlotData)
    → lookup (suc k) m ≡ some a
    → ¬ IsIndexed (remove_slot (pos (suc k)) m)
unfolding remove_slot overwrite empty_slot
remove_slot_loses_index m k a e h =
    let written : lookup (suc k) (remove_slot (pos (suc k)) m) ≡ some (empty_slot (pos 0)) =
      rw (remove_slot, overwrite, e)
        (ground (arith, lookup-insert (suc k) (suc k) (empty_slot (pos 0)) m)) in
    omega (arith, eq_parts (h (suc k) (empty_slot (pos 0)) written))
