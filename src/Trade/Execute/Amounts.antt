-- ===== src/Trade/Execute/Amounts.antt =====
-- What the routines of one item do to the amounts, when they succeed.
use ll2games_rpg.Prelude.{
  not, ℕ, zero, suc, ◌≡◌, ◌≢◌, refl, inl, inr, false, Option, none, some, List, arith, ◌∙◌, sym, ap,
  Option-cases,
}
use ll2games_rpg.Prelude.Int.{ℤ}
use ll2games_rpg.Database.{Mysql, IsMysql, Fetch, row, truncated, no_data, error}
use ll2games_rpg.Database.Rows.{
  Row, Query, select_item_slot, select_next_slot, count_minus, delete_empty, has_row, effect,
  affected,
}
use ll2games_rpg.Trade.{done, TradeItem}
use ll2games_rpg.Trade.Execute.{
  run_statement, update_inventory_item_count_minus, delete_inventory_item, decrease_item,
  select_inventory_item_slot, select_next_inventory_slot_pos, slot_found, next_slot, run_select,
  changed_some, ran_at_all,
}

module _ (m : Mysql) (laws : IsMysql m) where
  -- A statement that ran had its effect.
  run_statement-effect :
      (q : Query) (d : m.Db) (n : ℕ)
      → (run_statement m q d).1 ≡ some n
      → (m.rows (run_statement m q d).0 ≡ effect q (m.rows d)) × (n ≡ affected q (m.rows d))
  unfolding run_statement
  run_statement-effect q d n =
      ground (arith, laws.execute_effect q d n, laws.execute_affected q d n)

  -- One that did not run left the table alone, and none touches what ROLLBACK goes back to.
  run_statement_failed :
      (q : Query) (d : m.Db)
      → (run_statement m q d).1 ≡ none
      → m.rows (run_statement m q d).0 ≡ m.rows d
  unfolding run_statement
  run_statement_failed q d = ground (arith, laws.execute_failed q d)

  pub run_statement_saved : (q : Query) (d : m.Db) → m.saved (run_statement m q d).0 ≡ m.saved d
  unfolding run_statement
  run_statement_saved q d = ground (arith, laws.execute_saved q d)

  changed_some_done :
      (p : m.Db × Option ℕ)
      → (changed_some m p).1 ≡ done
      → (n : ℕ) × (p.1 ≡ some (suc n)) × ((changed_some m p).0 ≡ p.0)
  unfolding changed_some
  changed_some_done (d, none) ok = cc
  changed_some_done (d, some zero) ok = cc
  changed_some_done (d, some (suc n)) ok = (n, refl, refl)

  ran_at_all_done :
      (p : m.Db × Option ℕ)
      → (ran_at_all m p).1 ≡ done
      → (n : ℕ) × (p.1 ≡ some n) × ((ran_at_all m p).0 ≡ p.0)
  unfolding ran_at_all
  ran_at_all_done (d, none) ok = cc
  ran_at_all_done (d, some n) ok = (n, refl, refl)

  -- A success of the two UPDATE routines: some row changed.
  pub update_done :
      (q : Query) (d : m.Db)
      → (changed_some m (run_statement m q d)).1 ≡ done
      → (m.rows (changed_some m (run_statement m q d)).0 ≡ effect q (m.rows d))
        × (affected q (m.rows d) ≢ 0)
  update_done q d ok =
      let (n, ran, same) = changed_some_done (run_statement m q d) ok in
      let (e, k) = run_statement-effect q d (suc n) ran in
      (ap m.rows same ∙ e, λ z. absurd (omega (arith, k, z)))

  -- A success of the INSERT and the DELETE routine.
  pub ran_done :
      (q : Query) (d : m.Db)
      → (ran_at_all m (run_statement m q d)).1 ≡ done
      → m.rows (ran_at_all m (run_statement m q d)).0 ≡ effect q (m.rows d)
  ran_done q d ok =
      let (n, ran, same) = ran_at_all_done (run_statement m q d) ok in
      ap m.rows same ∙ (run_statement-effect q d n ran).0

  -- `DecreaseItem` in two steps.
  pub decrease_done :
      (c : ℕ) (item : TradeItem) (d : m.Db)
      → (decrease_item m c item d).1 ≡ done
      → (affected (count_minus item.amount c item.id) (m.rows d) ≢ 0)
        × (m.rows (decrease_item m c item d).0
            ≡ effect
                (delete_empty c item.id)
                (effect (count_minus item.amount c item.id) (m.rows d)))
  unfolding decrease_item update_inventory_item_count_minus delete_inventory_item
  decrease_done c item d ok =
      let q = count_minus item.amount c item.id in
      let first : (changed_some m (run_statement m q d)).1 ≡ done = ground arith in
      let (e, some_row) = update_done q d first in
      let d' = (changed_some m (run_statement m q d)).0 in
      let second : (ran_at_all m (run_statement m (delete_empty c item.id) d')).1 ≡ done =
        ground arith in
      let number : not item.is_number ≡ false = ground arith in
      (
        some_row,
        rw (number, first, decrease_item)
            (ran_done (delete_empty c item.id) d' second ∙ ap (effect (delete_empty c item.id)) e),
      )

  -- A SELECT that was fetched from.
  run_select-some :
      (q : Query) (d : m.Db) (f : Fetch)
      → (run_select m q d).1 ≡ some f
      → (n : ℕ) × ((run_statement m q d).1 ≡ some n)
        × ((run_select m q d).0 ≡ (run_statement m q d).0)
        × (f ≡ m.stmt_fetch q (run_statement m q d).0)
  unfolding run_select
  run_select-some q d f ok = elim (Option-cases (run_statement m q d).1) [
    | inl e ↦ absurd (never e)
    | inr (n, e) ↦ (n, e, ground arith, ground arith)
  ]
    where
      never : (run_statement m q d).1 ≡ none → ⊥
      never e = ground arith

  slot_found_done :
      (p : m.Db × Option Fetch)
      → (slot_found m p).1 ≡ done
      → (f : Fetch) × (p.1 ≡ some f)
        × ((slot_found m p).0 ≡ p.0)
        × ((slot_found m p).2 ≡ false → f ≡ no_data)
  unfolding slot_found
  slot_found_done (d, none) ok = cc
  slot_found_done (d, some (row v)) ok = (row v, refl, refl, λ e. cc)
  slot_found_done (d, some (truncated v)) ok = (truncated v, refl, refl, λ e. cc)
  slot_found_done (d, some no_data) ok = (no_data, refl, refl, λ e. refl)
  slot_found_done (d, some error) ok = cc

  select_rows :
      (q : Query) (d : m.Db) (f : Fetch)
      → ((rs : List Row) → effect q rs ≡ rs)
      → (run_select m q d).1 ≡ some f
      → m.rows (run_select m q d).0 ≡ m.rows d
  select_rows q d f reads ok =
      let (n, ran, same, _) = run_select-some q d f ok in
      ap m.rows same ∙ (run_statement-effect q d n ran).0 ∙ reads (m.rows d)

  -- `SelectInventoryItemSlot` leaves the table alone, and says no only where there is no row.
  pub select_slot_done :
      (c : ℕ) (item : TradeItem) (d : m.Db)
      → (select_inventory_item_slot m c item d).1 ≡ done
      → (m.rows (select_inventory_item_slot m c item d).0 ≡ m.rows d)
        × ((select_inventory_item_slot m c item d).2 ≡ false → has_row c item.id (m.rows d) ≡ false)
  unfolding select_inventory_item_slot effect
  select_slot_done c item d ok =
      let q = select_item_slot c item.id in
      let (f, fetched, same, missing) = slot_found_done (run_select m q d) ok in
      let (n, ran, at, is_fetch) = run_select-some q d f fetched in
      let rows_same : m.rows (run_statement m q d).0 ≡ m.rows d =
        (run_statement-effect q d n ran).0 in
      (
        ap m.rows same ∙ select_rows q d f (λ rs. refl) fetched,
        λ e. rw (← rows_same) (laws.fetch_no_data c item.id _ (sym is_fetch ∙ missing e)),
      )

  next_slot_done :
      (p : m.Db × Option Fetch)
      → (next_slot m p).1 ≡ done
      → (f : Fetch) × (p.1 ≡ some f) × ((next_slot m p).0 ≡ p.0)
  unfolding next_slot
  next_slot_done (d, none) ok = cc
  next_slot_done (d, some (row v)) ok = (row v, refl, refl)
  next_slot_done (d, some (truncated v)) ok = (truncated v, refl, refl)
  next_slot_done (d, some no_data) ok = (no_data, refl, refl)
  next_slot_done (d, some error) ok = (error, refl, refl)

  pub select_next_done :
      (c : ℕ) (t : ℤ) (d : m.Db)
      → (select_next_inventory_slot_pos m c t d).1 ≡ done
      → m.rows (select_next_inventory_slot_pos m c t d).0 ≡ m.rows d
  unfolding select_next_inventory_slot_pos effect
  select_next_done c t d ok =
      let q = select_next_slot c t in
      let (f, fetched, same) = next_slot_done (run_select m q d) ok in
      ap m.rows same ∙ select_rows q d f (λ rs. refl) fetched
