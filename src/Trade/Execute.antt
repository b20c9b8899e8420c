-- ===== src/Trade/Execute.antt =====
-- `TradeService::Execute` and the database routines below it. The calls of the MySQL C API go to the
-- parameter `m`; the statement handle that each routine opens is not kept in the model.
pub mod Amounts
pub mod Increase
pub mod Atomic
pub mod Exchange
pub mod Faults
pub mod Ids
pub mod Numbers
mod Tests
use ll2games_rpg.Prelude.{
  ℕ, zero, suc, Bool, true, false, not, Option, none, some, List, [], ◌∷◌, if◌then◌else◌,
}
use ll2games_rpg.Prelude.Int.{ℤ, pos}
use ll2games_rpg.Database.{Mysql, Fetch, row, truncated, no_data, error}
use ll2games_rpg.Database.Rows.{
  Row, Query, select_item_slot, select_next_slot, count_plus, count_minus, insert_item,
  delete_empty,
}
use ll2games_rpg.Database.Pool.{Pool, get_connection}
use ll2games_rpg.Trade.{Code, done, failed, threw, TradeItem, TradeSession}

module _ (m : Mysql) where
  -- mysql_stmt_init, _prepare, _bind_param, _execute and _affected_rows, in this order; `none` is
  -- any `return -1` among them.
  pub run_statement : Query → m.Db → m.Db × Option ℕ
  run_statement q d =
      if not (m.stmt_init d)
      then (d, none)
      else if not (m.stmt_prepare q d)
      then (d, none)
      else if not (m.stmt_bind_param q d)
      then (d, none)
      else m.stmt_execute q d

  -- The same up to _execute, then _bind_result, _store_result and _fetch.
  pub run_select : Query → m.Db → m.Db × Option Fetch
  run_select q d =
      let (d', ran) = run_statement q d in
      elim ran [
        | none ↦ (d', none)
        | some _ ↦
            if not (m.stmt_bind_result q d')
            then (d', none)
            else if not (m.stmt_store_result q d')
            then (d', none)
            else (d', some (m.stmt_fetch q d'))
      ]

  -- The `bool&` result says whether the character has a row for the item.
  pub slot_found : m.Db × Option Fetch → m.Db × Code × Bool
  slot_found (d, none) = (d, failed, false)
  slot_found (d, some (row v)) = (d, done, true)
  slot_found (d, some (truncated v)) = (d, done, true)
  slot_found (d, some no_data) = (d, done, false)
  slot_found (d, some error) = (d, failed, false)

  pub select_inventory_item_slot : ℕ → TradeItem → m.Db → m.Db × Code × Bool
  select_inventory_item_slot char_id item d =
      slot_found (run_select (select_item_slot char_id item.id) d)

  -- An UPDATE that changes no row counts as a failure.
  pub changed_some : m.Db × Option ℕ → m.Db × Code
  changed_some (d, none) = (d, failed)
  changed_some (d, some zero) = (d, failed)
  changed_some (d, some (suc n)) = (d, done)

  pub update_inventory_item_count_plus : ℕ → ℕ → ℤ → m.Db → m.Db × Code
  update_inventory_item_count_plus char_id item_id amount d =
      changed_some (run_statement (count_plus amount char_id item_id) d)

  pub update_inventory_item_count_minus : ℕ → ℕ → ℤ → m.Db → m.Db × Code
  update_inventory_item_count_minus char_id item_id amount d =
      changed_some (run_statement (count_minus amount char_id item_id) d)

  -- `return false` is 0, so an error of the fetch counts as success, with the slot position 0.
  pub next_slot : m.Db × Option Fetch → m.Db × Code × ℤ
  next_slot (d, none) = (d, failed, pos 0)
  next_slot (d, some (row v)) = (d, done, v)
  next_slot (d, some (truncated v)) = (d, done, v)
  next_slot (d, some no_data) = (d, done, pos 0)
  next_slot (d, some error) = (d, done, pos 0)

  pub select_next_inventory_slot_pos : ℕ → ℤ → m.Db → m.Db × Code × ℤ
  select_next_inventory_slot_pos char_id inventory_type d =
      next_slot (run_select (select_next_slot char_id inventory_type) d)

  pub ran_at_all : m.Db × Option ℕ → m.Db × Code
  ran_at_all (d, none) = (d, failed)
  ran_at_all (d, some _) = (d, done)

  pub insert_inventory_item : Row → m.Db → m.Db × Code
  insert_inventory_item r d = ran_at_all (run_statement (insert_item r) d)

  pub delete_inventory_item : ℕ → ℕ → m.Db → m.Db × Code
  delete_inventory_item char_id item_id d =
      ran_at_all (run_statement (delete_empty char_id item_id) d)

  pub decrease_item : ℕ → TradeItem → m.Db → m.Db × Code
  decrease_item char_id item d =
      if not item.is_number
      then (d, threw)
      else (let (d', code) = update_inventory_item_count_minus char_id item.id item.amount d in
          elim code [ done ↦ delete_inventory_item char_id item.id d' | _ ↦ (d', failed) ])

  -- The new position is written to the item of the session only after an INSERT.
  pub insert_new : ℕ → TradeItem → m.Db → m.Db × Code × TradeItem
  insert_new char_id item d =
      let (d', code, slot_pos) = select_next_inventory_slot_pos char_id item.item_type d in
      elim code [
        | done ↦
            let (d'', code') =
              insert_inventory_item
                (record {
                  char_id = char_id;
                  inventory_type = item.item_type;
                  slot_pos = slot_pos;
                  item_id = item.id;
                  item_count = item.amount;
                })
                d' in
            elim code' [
              | done ↦ (d'', done, record item { slot_index = slot_pos })
              | _ ↦ (d'', failed, item)
            ]
        | _ ↦ (d', failed, item)
      ]

  pub add_to_inventory : ℕ → TradeItem → m.Db → m.Db × Code × TradeItem
  add_to_inventory char_id item d =
      let (d', code, has_item) = select_inventory_item_slot char_id item d in
      elim code [
        | done ↦
            if has_item
            then (let (d'', code') =
                  update_inventory_item_count_plus char_id item.id item.amount d' in
                elim code' [ done ↦ (d'', done, item) | _ ↦ (d'', failed, item) ])
            else insert_new char_id item d'
        | _ ↦ (d', failed, item)
      ]

  pub increase_item : ℕ → TradeItem → m.Db → m.Db × Code × TradeItem
  increase_item char_id item d =
      if not item.is_number then (d, threw, item) else add_to_inventory char_id item d

  -- One of the two loops: each item goes from `giver` to `taker`, until one fails or throws.
  pub move_items : ℕ → ℕ → List TradeItem → m.Db → m.Db × Code × List TradeItem
  move_items giver taker [] d = (d, done, [])
  move_items giver taker (item ∷ items) d =
      let (d1, code1) = decrease_item giver item d in
      let (d2, code2, item') = increase_item taker item d1 in
      let (d3, code3, items') = move_items giver taker items d2 in
      elim code1 [
        | done ↦ elim code2 [
          | done ↦ (d3, code3, item' ∷ items')
          | threw ↦ (d2, threw, item' ∷ items)
          | _ ↦ (d2, failed, item' ∷ items)
        ]
        | threw ↦ (d1, threw, item ∷ items)
        | _ ↦ (d1, failed, item ∷ items)
      ]

  -- Both loops, then COMMIT or ROLLBACK, whose answers, like that of START TRANSACTION, are not looked at.
  -- An exception leaves the function with the transaction open.
  pub transact : TradeSession → m.Db → m.Db × Code × TradeSession
  transact s d =
      let (d1, code1, a_items) = move_items s.a_id s.b_id s.a_items (m.start_transaction d) in
      let (d2, code2, b_items) = move_items s.b_id s.a_id s.b_items d1 in
      elim code1 [
        | done ↦ elim code2 [
          | done ↦ (m.commit d2, done, record s { a_items = a_items; b_items = b_items })
          | threw ↦ (d2, threw, record s { a_items = a_items; b_items = b_items })
          | _ ↦ (m.rollback d2, failed, record s { a_items = a_items; b_items = b_items })
        ]
        | threw ↦ (d1, threw, record s { a_items = a_items })
        | _ ↦ (m.rollback d1, failed, record s { a_items = a_items })
      ]

  -- The connection is taken from the pool and not given back.
  pub execute : TradeSession → Pool → m.Db → Pool × m.Db × Code × TradeSession
  execute s pool d =
      let (conn, pool') = get_connection pool in
      elim conn [
        | none ↦ (pool', d, failed, s)
        | some _ ↦ let (d', code, s') = transact s d in (pool', d', code, s')
      ]
