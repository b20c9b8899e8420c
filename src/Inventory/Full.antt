-- ===== src/Inventory/Full.antt =====
-- When `Inventory::AddItem` answers false for a positive count, the inventory is full.
use ll2games_rpg.Prelude.{
  ℕ, zero, suc, ◌+◌, ◌≤◌, ◌<◌, ◌≡◌, ◌≢◌, ◌==◌, Bool, true, false, inl, inr, some, List, arith,
  if◌then◌else◌, Bool-cases, Option-cases,
}
use ll2games_rpg.Prelude.Int.{ℤ, pos, pos_part, ◌<ℤ◌, leb_ℤ, min_ℤ}
use ll2games_rpg.Prelude.Dict.{lookup, insert, lookup-insert}
use ll2games_rpg.Inventory.{
  InventorySlot, Inventory, AddItemData, AddItemResult, Filling, Slots, put_in, fill_empty,
  each_slot, fill_rest, add_loops, add_item, find_slot,
}
use ll2games_rpg.Inventory.Frame.{Takes, each_slot_keeps, fill_empty_keeps}

-- An enabled slot at this position is in use.
abbrev Occupied : ℕ → Slots → Type 0
Occupied k m = (s : InventorySlot) → lookup k m ≡ some s → s.is_enable ≡ true → s.item_id ≢ 0

module _ (d : AddItemData) (real : d.item_id ≢ 0) where
  keeps_Occupied :
      (k j : ℕ) (s : InventorySlot) (n : ℤ) (m : Slots)
      → lookup j m ≡ some s
      → Takes d.item_id s
      → Occupied k m
      → Occupied k (insert j (record s { item_id = d.item_id; item_count = n }) m)
  keeps_Occupied k j s n m e t occ s' e' on = elim (Bool-cases (k == j)) [
    | inl same ↦
        ground (arith, lookup-insert j k (record s { item_id = d.item_id; item_count = n }) m)
    | inr other ↦
        occ s'
          (ground (arith, lookup-insert j k (record s { item_id = d.item_id; item_count = n }) m))
          on
  ]

  fill_empty_occupies : (k : ℕ) (f : Filling) → Occupied k (fill_empty d k f).0.slots
  unfolding fill_empty put_in
  fill_empty_occupies k f = elim (Option-cases (lookup k f.slots)) [
    | inl e ↦ rw (e, fill_empty) (λ s e' on. ground arith)
    | inr (s, e) ↦ λ s' e' on.
        let a = if d.stackable then min_ℤ d.max_stack f.remain else pos 1 in
        ground (arith, lookup-insert k k (record s { item_id = d.item_id; item_count = a }) f.slots)
  ]

  loop_occupies :
      (n i : ℕ) (f : Filling) (k : ℕ)
      → i ≤ k
      → k < i + n
      → (each_slot (fill_empty d) n i f).1 ≡ false
      → Occupied k (each_slot (fill_empty d) n i f).0.slots
  unfolding each_slot
  loop_occupies zero i f k lo hi short = absurd (omega arith)
  loop_occupies (suc n) i f k lo hi short = elim (Bool-cases (fill_empty d i f).1) [
    | inl done ↦ absurd (ground arith)
    | inr more ↦
        let short' : (each_slot (fill_empty d) n (i + 1) (fill_empty d i f).0).1 ≡ false =
          rw (more, each_slot) at short in
        rw (more, each_slot)
          (elim (Bool-cases (k == i)) [
            | inl same ↦
                each_slot_keeps d (Occupied k) (keeps_Occupied k) (fill_empty d)
                  (fill_empty_keeps d (Occupied k) (keeps_Occupied k)) n (i + 1)
                  (fill_empty d i f).0
                  (let e : k ≡ i = ground arith in rw e (fill_empty_occupies i f))
            | inr other ↦
                loop_occupies n (i + 1) (fill_empty d i f).0 k (ground arith) (omega arith) short'
          ])
  ]

  rest_occupies :
      (n : ℕ) (r : Filling × Bool) (k : ℕ)
      → k < n
      → (fill_rest d n r).1 ≡ false
      → Occupied k (fill_rest d n r).0.slots
  unfolding fill_rest
  rest_occupies n (f, true) k h short = λ s e on. cc
  rest_occupies n (f, false) k h short = loop_occupies n 0 f k (omega arith) (omega arith) short

-- When a positive count is not placed completely, no enabled slot below the maximum is left empty.
pub add_item_full :
    (inv : Inventory) (d : AddItemData) (results : List AddItemResult) (k : ℕ) (s : InventorySlot)
    → d.item_id ≢ 0
    → pos 0 <ℤ d.count
    → (add_item inv d results).added ≡ false
    → k < pos_part inv.max_slot
    → find_slot (add_item inv d results).inventory k ≡ some s
    → s.is_enable ≡ true
    → s.item_id ≢ 0
unfolding add_item find_slot add_loops
add_item_full inv d results k s real h =
    let positive : leb_ℤ d.count (pos 0) ≡ false = ground arith in
    rw positive (λ short below e on. rest_occupies d real _ _ k below short s e on)
