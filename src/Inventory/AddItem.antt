-- ===== src/Inventory/AddItem.antt =====
-- `Inventory::AddItem`: nothing is lost or made up, and the answer says whether all of it fits.
use ll2games_rpg.Prelude.{
  ℕ, zero, suc, ◌+◌, ◌≡◌, ◌≢◌, refl, Bool, true, false, inl, inr, some, ◌∙◌, sym, List, arith,
  if◌then◌else◌, Bool-cases, Option-cases, if_both,
}
use ll2games_rpg.Prelude.Int.{
  ℤ, pos, ◌+ℤ◌, ◌-ℤ◌, ◌≤ℤ◌, ◌<ℤ◌, leb_ℤ, eqb_ℤ, min_ℤ, int_laws, +ℤ_parts, -ℤ_parts, eq_of_parts,
  eq_parts,
}
use ll2games_rpg.Prelude.Dict.{lookup}
use ll2games_rpg.Inventory.{
  InventorySlot, Inventory, AddItemData, AddItemResult, Filling, put_in, fill_stack, fill_empty,
  each_slot, fill_rest, add_loops, add_item,
}
use ll2games_rpg.Inventory.Held.{held, held-insert, count_of, count_of_self}

-- A loop or a round that began with something left.
record Adds (d : AddItemData) (f : Filling) (r : Filling × Bool) : Type 0 where
  conserved : held d.item_id r.0.slots +ℤ r.0.remain ≡ held d.item_id f.slots +ℤ f.remain
  finished : r.1 ≡ true → r.0.remain ≡ pos 0
  unfinished : r.1 ≡ false → pos 0 <ℤ r.0.remain

module _ (d : AddItemData) where
  Adds-nothing : (f : Filling) → pos 0 <ℤ f.remain → Adds d f (f, false)
  Adds-nothing f h = record { conserved = refl; finished = λ e. cc; unfinished = λ e. h }

  -- A write that raises the slot's share of the item by what it takes off the rest.
  put_in-Adds :
      (k : ℕ) (slot : InventorySlot) (n a : ℤ) (f : Filling)
      → lookup k f.slots ≡ some slot
      → n ≡ count_of d.item_id slot +ℤ a
      → a ≤ℤ f.remain
      → Adds d f (put_in d k slot n a f)
  unfolding put_in
  put_in-Adds k slot n a f e share fits = record {
    conserved = omega (
      int_laws,
      eq_parts share,
      eq_parts (count_of_self d.item_id (record slot { item_id = d.item_id; item_count = n }) refl),
      eq_parts (
          held-insert d.item_id k (record slot { item_id = d.item_id; item_count = n }) slot f.slots
            e),
    );
    finished = λ t. ground (arith, -ℤ_parts f.remain a, eq_of_parts (f.remain -ℤ a) (pos 0));
    unfinished = λ t. ground (arith, -ℤ_parts f.remain a);
  }

  fill_stack-Adds : (k : ℕ) (f : Filling) → pos 0 <ℤ f.remain → Adds d f (fill_stack d k f)
  unfolding fill_stack
  fill_stack-Adds k f h = elim (Option-cases (lookup k f.slots)) [
    | inl e ↦ rw (e, fill_stack) (Adds-nothing f h)
    | inr (slot, e) ↦
        rw (e, fill_stack)
          (ground (
            arith,
            Adds-nothing f h,
            count_of_self d.item_id slot,
            put_in-Adds k slot (slot.item_count +ℤ min_ℤ (d.max_stack -ℤ slot.item_count) f.remain)
                (min_ℤ (d.max_stack -ℤ slot.item_count) f.remain) f e,
          ))
  ]

  fill_empty-Adds :
      (k : ℕ) (f : Filling) → d.item_id ≢ 0 → pos 0 <ℤ f.remain → Adds d f (fill_empty d k f)
  unfolding fill_empty count_of
  fill_empty-Adds k f real h = elim (Option-cases (lookup k f.slots)) [
    | inl e ↦ rw (e, fill_empty) (Adds-nothing f h)
    | inr (slot, e) ↦
        let a : ℤ = if d.stackable then min_ℤ d.max_stack f.remain else pos 1 in
        rw (e, fill_empty)
          (ground (
            arith,
            Adds-nothing f h,
            put_in-Adds k slot a a f e,
            +ℤ_parts (pos 0) a,
            eq_of_parts a (pos 0 +ℤ a),
          ))
  ]

  module _ (body : ℕ → Filling → Filling × Bool)
      (round : (k : ℕ) (f : Filling) → pos 0 <ℤ f.remain → Adds d f (body k f)) where
    each_slot-Adds : (n i : ℕ) (f : Filling) → pos 0 <ℤ f.remain → Adds d f (each_slot body n i f)
    unfolding each_slot
    each_slot-Adds zero i f h = Adds-nothing f h
    each_slot-Adds (suc n) i f h = elim (Bool-cases (body i f).1) [
      | inl done ↦
          rw (done, each_slot)
            (record {
              conserved = (round i f h).conserved;
              finished = λ _. (round i f h).finished done;
              unfinished = λ e. cc;
            })
      | inr more ↦
          let first = round i f h in
          let rest = each_slot-Adds n (i + 1) (body i f).0 (first.unfinished more) in
          rw (more, each_slot)
            (record {
              conserved = rest.conserved ∙ first.conserved;
              finished = rest.finished;
              unfinished = rest.unfinished;
            })
    ]

  fill_rest-Adds :
      (n : ℕ) (f : Filling) (r : Filling × Bool)
      → d.item_id ≢ 0
      → Adds d f r
      → Adds d f (fill_rest d n r)
  unfolding fill_rest
  fill_rest-Adds n f (g, true) real a = a
  fill_rest-Adds n f (g, false) real a =
      let rest =
        each_slot-Adds (fill_empty d) (λ k g' h. fill_empty-Adds k g' real h) n 0 g
          (a.unfinished refl) in
      record {
        conserved = rest.conserved ∙ a.conserved;
        finished = rest.finished;
        unfinished = rest.unfinished;
      }

  add_loops-Adds :
      (inv : Inventory) (f : Filling)
      → d.item_id ≢ 0
      → pos 0 <ℤ f.remain
      → Adds d f (add_loops inv d f)
  unfolding add_loops
  add_loops-Adds inv f real h = fill_rest-Adds _ f _ real (
      if_both (Adds d f) d.stackable (each_slot-Adds (fill_stack d) fill_stack-Adds _ 0 f h)
        (Adds-nothing f h))

add_item_two_cases :
    (inv : Inventory) (d : AddItemData) (results : List AddItemResult)
    → d.item_id ≢ 0
    → pos 0 <ℤ d.count
    → let out = add_item inv d results in
      let before = held d.item_id inv.slots in
      let after = held d.item_id out.inventory.slots in
      (out.added ≡ true → after ≡ before +ℤ d.count)
      × (out.added ≡ false → after <ℤ before +ℤ d.count)
unfolding add_item
add_item_two_cases inv d results real h =
    let f : Filling = record { slots = inv.slots; remain = d.count; results = results } in
    let a = add_loops-Adds d inv f real h in
    let positive : leb_ℤ d.count (pos 0) ≡ false = ground arith in
    rw positive (
      (λ done.
          eq_of_parts _ _ (omega (int_laws, eq_parts a.conserved, eq_parts (a.finished done)))),
      (λ short. omega (int_laws, eq_parts a.conserved, a.unfinished short)),
    )

-- For a positive count `AddItem` never places more than the count, and it answers true exactly when it
-- placed all of it: the inventory then holds that much more of the item.
pub add_item_conserves :
    (inv : Inventory) (d : AddItemData) (results : List AddItemResult)
    → d.item_id ≢ 0
    → pos 0 <ℤ d.count
    → let out = add_item inv d results in
      let before = held d.item_id inv.slots in
      let after = held d.item_id out.inventory.slots in
      (after ≤ℤ before +ℤ d.count) × (out.added ≡ eqb_ℤ after (before +ℤ d.count))
add_item_conserves inv d results real h =
    let (all, part) = add_item_two_cases inv d results real h in
    let out = add_item inv d results in
    elim (Bool-cases out.added) [
      | inl yes_all ↦
          let e = all yes_all in (omega (arith, eq_parts e), yes_all ∙ sym (eqb_same _ _ e))
      | inr not_all ↦
          let l = part not_all in
          (
            omega arith,
            not_all
                ∙ sym (
                    eqb_less (held d.item_id out.inventory.slots)
                      (held d.item_id inv.slots +ℤ d.count) l),
          )
    ]
  where
    eqb_same : (a b : ℤ) → a ≡ b → eqb_ℤ a b ≡ true
    eqb_same a b e = ground (arith, eq_parts e)

    eqb_less : (a b : ℤ) → a <ℤ b → eqb_ℤ a b ≡ false
    eqb_less a b l = ground arith
