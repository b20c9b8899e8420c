-- ===== src/Inventory/Frame.antt =====
-- What `Inventory::AddItem` leaves alone: the other items, the set of slots, the disabled slots.
use ll2games_rpg.Prelude.{
  ℕ, zero, suc, ◌+◌, ◌≡◌, ◌≢◌, refl, Bool, true, false, inl, inr, ◌⊎◌, none, some, ◌∙◌, sym, List,
  arith, if◌then◌else◌, Bool-cases, Option-cases, if_both,
}
use ll2games_rpg.Prelude.Int.{ℤ, pos, ◌+ℤ◌, ◌-ℤ◌, leb_ℤ, min_ℤ, int_laws, eq_of_parts, eq_parts}
use ll2games_rpg.Prelude.Dict.{lookup, insert, lookup-insert}
use ll2games_rpg.Inventory.{
  InventorySlot, Inventory, AddItemData, AddItemResult, Filling, Slots, put_in, fill_stack,
  fill_empty, each_slot, fill_rest, add_loops, add_item, find_slot, AddOutcome,
}
use ll2games_rpg.Inventory.Held.{held, held-insert, count_of_other}

-- A slot that may be written: enabled, and empty or of the item that is added.
abbrev pub Takes : ℕ → InventorySlot → Type 0
Takes y s = (s.is_enable ≡ true) × ((s.item_id ≡ 0) ⊎ (s.item_id ≡ y))

-- A property of the slots that every write to such a slot keeps survives `AddItem`.
module _ {ℓ} (d : AddItemData) (P : Slots → Type ℓ)
    (keep : (k : ℕ) (s : InventorySlot) (n : ℤ) (m : Slots)
      → lookup k m ≡ some s
      → Takes d.item_id s
      → P m
      → P (insert k (record s { item_id = d.item_id; item_count = n }) m)) where
  fill_stack_keeps : (k : ℕ) (f : Filling) → P f.slots → P (fill_stack d k f).0.slots
  unfolding fill_stack put_in
  fill_stack_keeps k f p = elim (Option-cases (lookup k f.slots)) [
    | inl e ↦ rw (e, fill_stack) p
    | inr (s, e) ↦
        let a = min_ℤ (d.max_stack -ℤ s.item_count) f.remain in
        rw (e, fill_stack) (ground (arith, keep k s (s.item_count +ℤ a) f.slots e))
  ]

  pub fill_empty_keeps : (k : ℕ) (f : Filling) → P f.slots → P (fill_empty d k f).0.slots
  unfolding fill_empty put_in
  fill_empty_keeps k f p = elim (Option-cases (lookup k f.slots)) [
    | inl e ↦ rw (e, fill_empty) p
    | inr (s, e) ↦
        rw (e, fill_empty)
          (ground
            (arith, keep k s (if d.stackable then min_ℤ d.max_stack f.remain else pos 1) f.slots e))
  ]

  module _ (body : ℕ → Filling → Filling × Bool)
      (round : (k : ℕ) (f : Filling) → P f.slots → P (body k f).0.slots) where
    pub each_slot_keeps : (n i : ℕ) (f : Filling) → P f.slots → P (each_slot body n i f).0.slots
    unfolding each_slot
    each_slot_keeps zero i f p = p
    each_slot_keeps (suc n) i f p = elim (Bool-cases (body i f).1) [
      | inl done ↦ rw (done, each_slot) (round i f p)
      | inr more ↦ rw (more, each_slot) (each_slot_keeps n (i + 1) (body i f).0 (round i f p))
    ]

  fill_rest_keeps : (n : ℕ) (r : Filling × Bool) → P r.0.slots → P (fill_rest d n r).0.slots
  unfolding fill_rest
  fill_rest_keeps n (f, true) p = p
  fill_rest_keeps n (f, false) p = each_slot_keeps (fill_empty d) fill_empty_keeps n 0 f p

  pub add_item_keeps :
      (inv : Inventory) (results : List AddItemResult)
      → P inv.slots
      → P (add_item inv d results).inventory.slots
  unfolding add_item add_loops
  add_item_keeps inv results p =
      if_both (λ (o : AddOutcome). P o.inventory.slots) (leb_ℤ d.count (pos 0)) p
        (fill_rest_keeps _ _ (
          if_both (λ (r : Filling × Bool). P r.0.slots) d.stackable
            (each_slot_keeps (fill_stack d) fill_stack_keeps _ 0 _ p) p))

-- Adding one item leaves the amount of every other item as it was.
pub add_item_others :
    (inv : Inventory) (d : AddItemData) (results : List AddItemResult) (y : ℕ)
    → y ≢ d.item_id
    → y ≢ 0
    → held y (add_item inv d results).inventory.slots ≡ held y inv.slots
add_item_others inv d results y other real =
    add_item_keeps d (λ m. held y m ≡ held y inv.slots) keep inv results refl
  where
    keep :
        (k : ℕ) (s : InventorySlot) (n : ℤ) (m : Slots)
        → lookup k m ≡ some s
        → Takes d.item_id s
        → held y m ≡ held y inv.slots
        → held y (insert k (record s { item_id = d.item_id; item_count = n }) m) ≡ held y inv.slots
    keep k s n m e t same = eq_of_parts _ _ (
        omega (
          int_laws,
          eq_parts same,
          eq_parts (held-insert y k (record s { item_id = d.item_id; item_count = n }) s m e),
          eq_parts (count_of_other y s (not_item t)),
          eq_parts (count_of_other y (record s { item_id = d.item_id; item_count = n }) other),
        ))
      where
        not_item : Takes d.item_id s → y ≢ s.item_id
        not_item t = ground arith

pub add_item_two_frames :
    (inv : Inventory) (d : AddItemData) (results : List AddItemResult) (k : ℕ)
    → (find_slot inv k ≡ none → find_slot (add_item inv d results).inventory k ≡ none)
      × ((s : InventorySlot)
          → find_slot inv k ≡ some s
          → s.is_enable ≡ false
          → find_slot (add_item inv d results).inventory k ≡ some s)
unfolding find_slot
add_item_two_frames inv d results k = (
  (λ e.
      add_item_keeps d (λ m. lookup k m ≡ none)
        (λ j s n m e' t h.
          ground (arith, lookup-insert j k (record s { item_id = d.item_id; item_count = n }) m))
        inv results e),
  (λ s e off.
      add_item_keeps d (λ m. lookup k m ≡ some s)
        (λ j s' n m e' t h.
          ground (arith, lookup-insert j k (record s' { item_id = d.item_id; item_count = n }) m))
        inv results e),
)

-- A position that has no slot, or a slot that is not enabled, is never written.
pub add_item_frame :
    (inv : Inventory) (d : AddItemData) (results : List AddItemResult) (k : ℕ)
    → ((s : InventorySlot) → find_slot inv k ≡ some s → s.is_enable ≡ false)
    → find_slot (add_item inv d results).inventory k ≡ find_slot inv k
add_item_frame inv d results k off = elim (Option-cases (find_slot inv k)) [
  | inl e ↦ (add_item_two_frames inv d results k).0 e ∙ sym e
  | inr (s, e) ↦ (add_item_two_frames inv d results k).1 s e (off s e) ∙ sym e
]
