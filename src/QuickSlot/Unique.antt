-- ===== src/QuickSlot/Unique.antt =====
-- A skill or an item stands in one quick slot at most.
use ll2games_rpg.Prelude.{
  ℕ, zero, suc, ◌≡◌, ◌≢◌, refl, ◌∙◌, ◌⊎◌, inl, inr, true, false, some, List, [], ◌∷◌, ◌==◌, arith,
  Bool-cases, Option-cases,
}
use ll2games_rpg.Prelude.Int.{ℤ, pos, negsuc}
use ll2games_rpg.Prelude.Dict.{lookup, insert, lookup-insert}
use ll2games_rpg.QuickSlot.{
  QuickSlotData, Slots, empty_slot, is_same_target, clear_same, set_slot, set_slot_at,
  max_slot_count, init, init_from, overwrite, clear_slot, remove_slot,
}

-- No two slots have the same skill or the same item.
abbrev pub IsUnique : Slots → Type 0
IsUnique m =
    (i j : ℕ) (a b : QuickSlotData)
    → lookup i m ≡ some a
    → lookup j m ≡ some b
    → is_same_target a b ≡ true
    → i ≡ j

empty-same : (i : ℤ) (d : QuickSlotData) → is_same_target (empty_slot i) d ≡ false
unfolding is_same_target empty_slot
empty-same i d = refl

same-sym : (a b : QuickSlotData) → is_same_target a b ≡ is_same_target b a
unfolding is_same_target
same-sym a b = ground arith

-- What the loop leaves in each slot.
clear_same-lookup :
    (k j : ℕ) (slot : QuickSlotData) (m : Slots) (a : QuickSlotData)
    → lookup j (clear_same k slot m).0 ≡ some a
    → j ≢ k
    → (is_same_target a slot ≡ false) × ((lookup j m ≡ some a) ⊎ (a ≡ empty_slot (pos j)))
unfolding clear_same
clear_same-lookup k j slot [] a e n = ground arith
clear_same-lookup k j slot ((i, d) ∷ m) a e n =
    ground (arith, clear_same-lookup k j slot m a, empty-same (pos i) slot)

same-empty : (i : ℤ) (d : QuickSlotData) → is_same_target d (empty_slot i) ≡ false
same-empty i d = same-sym d (empty_slot i) ∙ empty-same i d

-- The written slot meets none of the others, and the others are as they were or empty.
written-IsUnique :
    (k : ℕ) (slot : QuickSlotData) (m : Slots)
    → IsUnique m
    → IsUnique (insert k slot (clear_same k slot m).0)
written-IsUnique k slot m u i j a b ea eb same =
    let at_i = lookup-insert k i slot (clear_same k slot m).0 in
    let at_j = lookup-insert k j slot (clear_same k slot m).0 in
    elim (Bool-cases (i == k)) [
      | inl ik ↦ elim (Bool-cases (j == k)) [
        | inl jk ↦ ground (arith, at_i, at_j)
        | inr jk ↦ ground (arith, at_i, at_j, clear_same-lookup k j slot m b, same-sym a b)
      ]
      | inr ik ↦ elim (Bool-cases (j == k)) [
        | inl jk ↦ ground (arith, at_i, at_j, clear_same-lookup k i slot m a)
        | inr jk ↦
            let (na, wa) = clear_same-lookup k i slot m a (ground (arith, at_i)) (ground arith) in
            let (nb, wb) = clear_same-lookup k j slot m b (ground (arith, at_j)) (ground arith) in
            elim wa [
              | inl ma ↦ elim wb [
                | inl mb ↦ u i j a b ma mb same
                | inr empty_b ↦ ground (arith, same-empty (pos j) a)
              ]
              | inr empty_a ↦ ground (arith, empty-same (pos i) b)
            ]
      ]
    ]

set_slot_at-IsUnique :
    (i : ℤ) (slot : QuickSlotData) (m : Slots) → IsUnique m → IsUnique (set_slot_at i slot m).0
unfolding set_slot_at
set_slot_at-IsUnique (negsuc n) slot m u = u
set_slot_at-IsUnique (pos k) slot m u = elim (Option-cases (lookup k m)) [
  | inl e ↦ rw (set_slot_at, e) u
  | inr (old, e) ↦ rw (set_slot_at, e) (written-IsUnique k slot m u)
]

-- The calls that change the table after Init.
pub data Change : Type 0 where
  sets : QuickSlotData → Change
  removes clears : ℤ → Change

pub change : Change → Slots → Slots
change (sets slot) m = (set_slot slot m).0
change (removes i) m = remove_slot i m
change (clears i) m = clear_slot i m

pub changes : List Change → Slots → Slots
changes [] m = m
changes (c ∷ cs) m = changes cs (change c m)

overwrite-IsUnique : (i l : ℤ) (m : Slots) → IsUnique m → IsUnique (overwrite i (empty_slot l) m)
unfolding overwrite
overwrite-IsUnique (negsuc n) l m u = u
overwrite-IsUnique (pos k) l m u = elim (Option-cases (lookup k m)) [
  | inl e ↦ rw (overwrite, e) u
  | inr (old, e) ↦
      rw (overwrite, e)
        (λ i j a b ea eb same. ground (
          arith,
          lookup-insert k i (empty_slot l) m,
          lookup-insert k j (empty_slot l) m,
          empty-same l a,
          empty-same l b,
          same-empty l a,
          u i j a b,
        ))
]

change-IsUnique : (c : Change) (m : Slots) → IsUnique m → IsUnique (change c m)
unfolding change set_slot remove_slot clear_slot
change-IsUnique (sets slot) m u = set_slot_at-IsUnique slot.slot_index slot m u
change-IsUnique (removes i) m u = overwrite-IsUnique i (pos 0) m u
change-IsUnique (clears i) m u = overwrite-IsUnique i i m u

init_from-empty :
    (i n j : ℕ) (a : QuickSlotData) → lookup j (init_from i n) ≡ some a → a ≡ empty_slot (pos j)
unfolding init_from
init_from-empty i zero j a e = ground arith
init_from-empty i (suc n) j a e = ground (arith, init_from-empty (suc i) n j a)

init-IsUnique : IsUnique init
unfolding init
init-IsUnique i j a b ea eb same =
    let empty_a = init_from-empty 0 max_slot_count i a ea in ground (arith, empty-same (pos i) b)

changes-IsUnique : (cs : List Change) (m : Slots) → IsUnique m → IsUnique (changes cs m)
unfolding changes
changes-IsUnique [] m u = u
changes-IsUnique (c ∷ cs) m u = changes-IsUnique cs (change c m) (change-IsUnique c m u)

-- However SetSlot, RemoveSlot and ClearSlot are called after Init, a skill or an item stands in one
-- quick slot at most.
pub quick_slots-IsUnique : (cs : List Change) → IsUnique (changes cs init)
quick_slots-IsUnique cs = changes-IsUnique cs init init-IsUnique
