-- ===== src/Trade/Execute/Atomic.antt =====
-- A trade that fails leaves the database as it was.
use ll2games_rpg.Prelude.{
  ℕ, true, ◌⊎◌, ◌≡◌, ◌≢◌, refl, List, [], ◌∷◌, Option, none, some, arith, ◌∙◌, ap,
}
use ll2games_rpg.Database.{Mysql, IsMysql, Fetch}
use ll2games_rpg.Database.Rows.{Query}
use ll2games_rpg.Trade.{done, failed, threw, TradeItem, TradeSession}
use ll2games_rpg.Trade.Execute.{
  run_statement, run_select, changed_some, ran_at_all, slot_found, next_slot,
  select_inventory_item_slot, select_next_inventory_slot_pos, update_inventory_item_count_plus,
  update_inventory_item_count_minus, insert_inventory_item, delete_inventory_item, insert_new,
  add_to_inventory, increase_item, decrease_item, move_items, transact,
}
use ll2games_rpg.Trade.Execute.Amounts.{run_statement_saved}

module _ (m : Mysql) (laws : IsMysql m) where
  changed_some_db : (p : m.Db × Option ℕ) → (changed_some m p).0 ≡ p.0
  unfolding changed_some
  changed_some_db (d, none) = refl
  changed_some_db (d, some n) = ground arith

  ran_at_all_db : (p : m.Db × Option ℕ) → (ran_at_all m p).0 ≡ p.0
  unfolding ran_at_all
  ran_at_all_db (d, none) = refl
  ran_at_all_db (d, some n) = refl

  slot_found_db : (p : m.Db × Option Fetch) → (slot_found m p).0 ≡ p.0
  unfolding slot_found
  slot_found_db (d, none) = refl
  slot_found_db (d, some f) = ground arith

  next_slot_db : (p : m.Db × Option Fetch) → (next_slot m p).0 ≡ p.0
  unfolding next_slot
  next_slot_db (d, none) = refl
  next_slot_db (d, some f) = ground arith

  run_select_db : (q : Query) (d : m.Db) → (run_select m q d).0 ≡ (run_statement m q d).0
  unfolding run_select
  run_select_db q d = ground arith

  -- No routine touches what ROLLBACK goes back to.
  changed_saved :
      (q : Query) (d : m.Db) → m.saved (changed_some m (run_statement m q d)).0 ≡ m.saved d
  changed_saved q d = rw (changed_some_db (run_statement m q d)) (run_statement_saved m laws q d)

  ran_saved : (q : Query) (d : m.Db) → m.saved (ran_at_all m (run_statement m q d)).0 ≡ m.saved d
  ran_saved q d = rw (ran_at_all_db (run_statement m q d)) (run_statement_saved m laws q d)

  slot_saved :
      (c : ℕ) (item : TradeItem) (d : m.Db)
      → m.saved (select_inventory_item_slot m c item d).0 ≡ m.saved d
  unfolding select_inventory_item_slot
  slot_saved c item d =
      ap m.saved (slot_found_db (run_select m _ d) ∙ run_select_db _ d)
      ∙ run_statement_saved m laws _ d

  next_saved :
      (c : ℕ) (item : TradeItem) (d : m.Db)
      → m.saved (select_next_inventory_slot_pos m c item.item_type d).0 ≡ m.saved d
  unfolding select_next_inventory_slot_pos
  next_saved c item d =
      ap m.saved (next_slot_db (run_select m _ d) ∙ run_select_db _ d)
      ∙ run_statement_saved m laws _ d

  decrease_saved :
      (c : ℕ) (item : TradeItem) (d : m.Db) → m.saved (decrease_item m c item d).0 ≡ m.saved d
  unfolding decrease_item update_inventory_item_count_minus delete_inventory_item
  decrease_saved c item d = grind (arith, changed_saved, ran_saved)

  insert_saved :
      (c : ℕ) (item : TradeItem) (d : m.Db) → m.saved (insert_new m c item d).0 ≡ m.saved d
  unfolding insert_new insert_inventory_item
  insert_saved c item d = grind (arith, ran_saved, next_saved)

  add_saved :
      (c : ℕ) (item : TradeItem) (d : m.Db) → m.saved (add_to_inventory m c item d).0 ≡ m.saved d
  unfolding add_to_inventory update_inventory_item_count_plus
  add_saved c item d = grind (arith, changed_saved, slot_saved, insert_saved)

  increase_saved :
      (c : ℕ) (item : TradeItem) (d : m.Db) → m.saved (increase_item m c item d).0 ≡ m.saved d
  unfolding increase_item
  increase_saved c item d = ground (arith, add_saved c item d)

  move_items_saved :
      (giver taker : ℕ) (items : List TradeItem) (d : m.Db)
      → m.saved (move_items m giver taker items d).0 ≡ m.saved d
  unfolding move_items
  move_items_saved giver taker [] d = refl
  move_items_saved giver taker (item ∷ items) d =
      let d1 = (decrease_item m giver item d).0 in
      let d2 = (increase_item m taker item d1).0 in
      ground (
        arith,
        decrease_saved giver item d,
        increase_saved taker item d1,
        move_items_saved giver taker items d2,
      )

-- A trade that does not succeed, whichever item and database routine it ends at, on a connection whose
-- server accepts START TRANSACTION and ROLLBACK: either a routine reported a failure, and the table is
-- exactly as it was before; or the function ended with an exception, and the table that a ROLLBACK
-- goes back to is the one from before the trade.
pub transact_atomic :
    (m : Mysql) (laws : IsMysql m) (s : TradeSession) (d : m.Db)
    → m.start_accepted d ≡ true
    → ((d' : m.Db) → m.rollback_accepted d' ≡ true)
    → (transact m s d).1 ≢ done
    → (((transact m s d).1 ≡ failed) × (m.rows (transact m s d).0 ≡ m.rows d))
      ⊎ (((transact m s d).1 ≡ threw) × (m.saved (transact m s d).0 ≡ m.rows d))
unfolding transact
transact_atomic m laws s d started accepted bad =
    let d0 = m.start_transaction d in
    let d1 = (move_items m s.a_id s.b_id s.a_items d0).0 in
    let d2 = (move_items m s.b_id s.a_id s.b_items d1).0 in
    let e1 = move_items_saved m laws s.a_id s.b_id s.a_items d0 in
    let e2 = move_items_saved m laws s.b_id s.a_id s.b_items d1 in
    ground (
      arith,
      e1,
      e2,
      laws.start_saved d started,
      laws.rollback_rows d1 (accepted d1),
      laws.rollback_rows d2 (accepted d2),
    )
