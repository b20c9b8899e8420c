-- ===== src/Trade/Execute/Increase.antt =====
-- A success of `TradeService::IncreaseItem`: an UPDATE of the row, or an INSERT of a new one.
use ll2games_rpg.Prelude.{ℕ, ◌≡◌, ◌≢◌, refl, ◌⊎◌, inl, inr, false, arith, ◌∙◌, ap, Bool-cases}
use ll2games_rpg.Database.{Mysql, IsMysql}
use ll2games_rpg.Database.Rows.{Row, count_plus, insert_item, has_row, effect, affected}
use ll2games_rpg.Trade.{done, TradeItem}
use ll2games_rpg.Trade.Execute.{
  run_statement, changed_some, ran_at_all, select_inventory_item_slot,
  select_next_inventory_slot_pos, update_inventory_item_count_plus, insert_inventory_item,
  insert_new, add_to_inventory, increase_item,
}
use ll2games_rpg.Trade.Execute.Amounts.{update_done, ran_done, select_slot_done, select_next_done}

abbrev pub SameItem : TradeItem → TradeItem → Type 0
SameItem x y = (y.id ≡ x.id) × (y.item_type ≡ x.item_type) × (y.amount ≡ x.amount)

module _ (m : Mysql) (laws : IsMysql m) (c : ℕ) (item : TradeItem) where
  insert_new_done :
      (d : m.Db)
      → (insert_new m c item d).1 ≡ done
      → (r : Row) × (r.char_id ≡ c)
        × (r.item_id ≡ item.id)
        × (r.item_count ≡ item.amount)
        × (m.rows (insert_new m c item d).0 ≡ effect (insert_item r) (m.rows d))
        × SameItem item (insert_new m c item d).2
  unfolding insert_new insert_inventory_item
  insert_new_done d ok =
      let next = select_next_inventory_slot_pos m c item.item_type d in
      let r : Row = record {
        char_id = c;
        inventory_type = item.item_type;
        slot_pos = next.2;
        item_id = item.id;
        item_count = item.amount;
      } in
      let found : next.1 ≡ done = ground arith in
      let inserted : (ran_at_all m (run_statement m (insert_item r) next.0)).1 ≡ done =
        ground arith in
      let e =
        ran_done m laws (insert_item r) next.0 inserted
        ∙ ap (effect (insert_item r)) (select_next_done m laws c item.item_type d found) in
      (r, refl, refl, refl, ground (arith, e), ground arith)

  add_done :
      (d : m.Db)
      → (add_to_inventory m c item d).1 ≡ done
      → SameItem item (add_to_inventory m c item d).2
        × (((affected (count_plus item.amount c item.id) (m.rows d) ≢ 0)
              × (m.rows (add_to_inventory m c item d).0
                  ≡ effect (count_plus item.amount c item.id) (m.rows d)))
            ⊎ ((r : Row) × (has_row c item.id (m.rows d) ≡ false)
                × (r.char_id ≡ c)
                × (r.item_id ≡ item.id)
                × (r.item_count ≡ item.amount)
                × (m.rows (add_to_inventory m c item d).0 ≡ effect (insert_item r) (m.rows d))))
  unfolding add_to_inventory update_inventory_item_count_plus
  add_done d ok =
      let s = select_inventory_item_slot m c item d in
      let q = count_plus item.amount c item.id in
      let found : s.1 ≡ done = ground arith in
      let (same, missing) = select_slot_done m laws c item d found in
      elim (Bool-cases s.2) [
        | inl has ↦
            let updated : (changed_some m (run_statement m q s.0)).1 ≡ done = ground arith in
            let (e, hit) = update_done m laws q s.0 updated in
            (
              ground arith,
              inl (ground (arith, ap (affected q) same), ground (arith, e ∙ ap (effect q) same)),
            )
        | inr new ↦
            let inserted : (insert_new m c item s.0).1 ≡ done = ground arith in
            let (r, rc, ri, rn, e, kept) = insert_new_done s.0 inserted in
            (
              ground (arith, kept),
              inr (
                r,
                missing new,
                rc,
                ri,
                rn,
                ground (arith, e ∙ ap (effect (insert_item r)) same),
              ),
            )
      ]

  -- The id of an item that is added is a number.
  is_added :
      (d : m.Db)
      → (increase_item m c item d).1 ≡ done
      → increase_item m c item d ≡ add_to_inventory m c item d
  unfolding increase_item
  is_added d ok = ground arith

  pub increase_done :
      (d : m.Db)
      → (increase_item m c item d).1 ≡ done
      → SameItem item (increase_item m c item d).2
        × (((affected (count_plus item.amount c item.id) (m.rows d) ≢ 0)
              × (m.rows (increase_item m c item d).0
                  ≡ effect (count_plus item.amount c item.id) (m.rows d)))
            ⊎ ((r : Row) × (has_row c item.id (m.rows d) ≡ false)
                × (r.char_id ≡ c)
                × (r.item_id ≡ item.id)
                × (r.item_count ≡ item.amount)
                × (m.rows (increase_item m c item d).0 ≡ effect (insert_item r) (m.rows d))))
  increase_done d ok = let e = is_added d ok in rw e (add_done d (rw e at ok))
