-- ===== src/Trade/Execute/Numbers.antt =====
-- A trade of items whose ids are all numbers throws nothing.
use ll2games_rpg.Prelude.{ℕ, ◌≡◌, ◌≢◌, true, Option, none, some, List, [], ◌∷◌, All, arith}
use ll2games_rpg.Database.{Mysql}
use ll2games_rpg.Database.Pool.{Pool}
use ll2games_rpg.Trade.{threw, TradeItem, TradeSession}
use ll2games_rpg.Trade.Execute.{
  changed_some, ran_at_all, update_inventory_item_count_minus, delete_inventory_item, insert_new,
  add_to_inventory, increase_item, decrease_item, move_items, transact, execute,
}

abbrev pub AreNumbers : List TradeItem → Type 0
AreNumbers = All (λ item. item.is_number ≡ true)

module _ (m : Mysql) where
  changed_some_ends : (p : m.Db × Option ℕ) → (changed_some m p).1 ≢ threw
  unfolding changed_some
  changed_some_ends (d, none) e = ground arith
  changed_some_ends (d, some n) e = ground arith

  ran_at_all_ends : (p : m.Db × Option ℕ) → (ran_at_all m p).1 ≢ threw
  unfolding ran_at_all
  ran_at_all_ends (d, none) e = ground arith
  ran_at_all_ends (d, some n) e = ground arith

  decrease_ends :
      (c : ℕ) (item : TradeItem) (d : m.Db)
      → item.is_number ≡ true
      → (decrease_item m c item d).1 ≢ threw
  unfolding decrease_item update_inventory_item_count_minus delete_inventory_item
  decrease_ends c item d number e = grind (arith, ran_at_all_ends)

  insert_new_ends : (c : ℕ) (item : TradeItem) (d : m.Db) → (insert_new m c item d).1 ≢ threw
  unfolding insert_new
  insert_new_ends c item d e = ground arith

  increase_ends :
      (c : ℕ) (item : TradeItem) (d : m.Db)
      → item.is_number ≡ true
      → (increase_item m c item d).1 ≢ threw
  unfolding increase_item add_to_inventory
  increase_ends c item d number e = grind (arith, insert_new_ends)

  move_items_ends :
      (giver taker : ℕ) (items : List TradeItem) (d : m.Db)
      → AreNumbers items
      → (move_items m giver taker items d).1 ≢ threw
  unfolding move_items
  move_items_ends giver taker [] d h e = ground arith
  move_items_ends giver taker (item ∷ items) d (number, h) e =
      let d1 = (decrease_item m giver item d).0 in
      let d2 = (increase_item m taker item d1).0 in
      ground (
        arith,
        decrease_ends giver item d number,
        increase_ends taker item d1 number,
        move_items_ends giver taker items d2 h,
      )

  transact_ends :
      (t : TradeSession) (d : m.Db)
      → AreNumbers t.a_items
      → AreNumbers t.b_items
      → (transact m t d).1 ≢ threw
  unfolding transact
  transact_ends t d a b e =
      let d0 = m.start_transaction d in
      let d1 = (move_items m t.a_id t.b_id t.a_items d0).0 in
      ground (
        arith,
        move_items_ends t.a_id t.b_id t.a_items d0 a,
        move_items_ends t.b_id t.a_id t.b_items d1 b,
      )

  pub execute_ends :
      (t : TradeSession) (pool : Pool) (d : m.Db)
      → AreNumbers t.a_items
      → AreNumbers t.b_items
      → (execute m t pool d).2 ≢ threw
  unfolding execute
  execute_ends t pool d a b e = ground (arith, transact_ends t d a b)
