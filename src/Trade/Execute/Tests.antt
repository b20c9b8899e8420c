-- ===== src/Trade/Execute/Tests.antt =====
-- Trades between the characters 1 and 2, on tables in memory.
use ll2games_rpg.Prelude.{ℕ, ◌≡◌, refl, true, false, ◌⊎◌, List, [], ◌∷◌, arith}
use ll2games_rpg.Prelude.Int.{ℤ, pos, negsuc, ◌+ℤ◌, ◌-ℤ◌}
use ll2games_rpg.Database.Rows.{Row, effect, affected, has_row}
use ll2games_rpg.Database.Rows.Laws.{amount_of}
use ll2games_rpg.Database.Rows.Statements.{IsInventory}
use ll2games_rpg.Trade.{done, failed, threw, TradeItem, TradeSession}
use ll2games_rpg.Trade.Memory.{Tables, memory, memory-IsMysql, fetch}
use ll2games_rpg.Trade.Execute.{
  run_statement, run_select, slot_found, select_inventory_item_slot, changed_some,
  update_inventory_item_count_plus, update_inventory_item_count_minus, next_slot,
  select_next_inventory_slot_pos, ran_at_all, insert_inventory_item, delete_inventory_item,
  decrease_item, insert_new, add_to_inventory, increase_item, move_items, transact, execute,
}
use ll2games_rpg.Trade.Execute.Exchange.{shares, transact_exchanges}
use ll2games_rpg.Trade.Execute.Atomic.{transact_atomic}
use ll2games_rpg.Trade.Execute.Faults.{execute_all, execute_drains_pool, transact_negative_steals}

abbrev stack : ℕ → ℤ → ℕ → ℤ → Row
stack c p i n = record {
  char_id = c;
  inventory_type = pos 1;
  slot_pos = p;
  item_id = i;
  item_count = n;
}

abbrev tables : List Row → Tables
tables rs = record { now = rs; before = [] }

abbrev start_rows : List Row
start_rows = stack 1 (pos 0) 7 (pos 5) ∷ stack 2 (pos 0) 7 (pos 1) ∷ stack 2 (pos 1) 8 (pos 2) ∷ []

abbrev upload : ℕ → ℤ → TradeItem
upload i n = record { id = i; is_number = true; item_type = pos 1; amount = n; slot_index = pos 0 }

abbrev session : List TradeItem → List TradeItem → TradeSession
session a b = record {
  a_player = 100;
  b_player = 200;
  a_id = 1;
  b_id = 2;
  a_ready = true;
  b_ready = true;
  a_items = a;
  b_items = b;
}

abbrev swap : TradeSession
swap = session (upload 7 (pos 3) ∷ []) (upload 8 (pos 2) ∷ [])

start_rows-IsInventory : IsInventory start_rows
unfolding has_row
start_rows-IsInventory = record {
  keyed = (refl, (refl, (refl, tt)));
  nonneg = (omega arith, (omega arith, (omega arith, tt)));
}

swap-done : (transact memory swap (tables start_rows)).1 ≡ done
unfolding run_statement run_select slot_found select_inventory_item_slot changed_some
    update_inventory_item_count_plus update_inventory_item_count_minus next_slot
    select_next_inventory_slot_pos ran_at_all insert_inventory_item delete_inventory_item
    decrease_item insert_new add_to_inventory increase_item move_items transact fetch effect
    affected has_row ◌+ℤ◌ ◌-ℤ◌
swap-done = refl

transact_exchanges_example :
    IsInventory (transact memory swap (tables start_rows)).0.now
    × ((c i : ℕ)
        → amount_of c i (transact memory swap (tables start_rows)).0.now
            +ℤ shares 1 c i swap.a_items
            +ℤ shares 2 c i swap.b_items
          ≡ amount_of c i start_rows +ℤ shares 2 c i swap.a_items +ℤ shares 1 c i swap.b_items)
transact_exchanges_example =
    transact_exchanges memory memory-IsMysql swap (tables start_rows) (λ d. refl) swap-done
      (omega arith, tt) (omega arith, tt) start_rows-IsInventory

abbrev too_much : TradeSession
too_much = session (upload 7 (pos 3) ∷ []) (upload 8 (pos 4) ∷ [])

too_much-failed : (transact memory too_much (tables start_rows)).1 ≡ failed
unfolding run_statement run_select slot_found select_inventory_item_slot changed_some
    update_inventory_item_count_plus update_inventory_item_count_minus next_slot
    select_next_inventory_slot_pos ran_at_all insert_inventory_item delete_inventory_item
    decrease_item insert_new add_to_inventory increase_item move_items transact fetch effect
    affected has_row ◌+ℤ◌ ◌-ℤ◌
too_much-failed = refl

-- The second upload is of an id that is no number.
abbrev no_number : TradeSession
no_number = session (upload 7 (pos 3) ∷ record (upload 9 (pos 1)) { is_number = false } ∷ []) []

no_number-threw : (transact memory no_number (tables start_rows)).1 ≡ threw
unfolding run_statement run_select slot_found select_inventory_item_slot changed_some
    update_inventory_item_count_plus update_inventory_item_count_minus next_slot
    select_next_inventory_slot_pos ran_at_all insert_inventory_item delete_inventory_item
    decrease_item insert_new add_to_inventory increase_item move_items transact fetch effect
    affected has_row ◌+ℤ◌ ◌-ℤ◌
no_number-threw = refl

transact_atomic_example :
    (((transact memory too_much (tables start_rows)).1 ≡ failed)
      × ((transact memory too_much (tables start_rows)).0.now ≡ start_rows))
    ⊎ (((transact memory too_much (tables start_rows)).1 ≡ threw)
        × ((transact memory too_much (tables start_rows)).0.before ≡ start_rows))
transact_atomic_example =
    transact_atomic memory memory-IsMysql too_much (tables start_rows) refl (λ d. refl)
      (λ e. cc (e, too_much-failed))

execute_drains_pool_example :
    let (pool', d') =
      execute_all memory (swap ∷ too_much ∷ []) (31 ∷ 32 ∷ []) (tables start_rows) in
    execute memory swap pool' d' ≡ ([], d', failed, swap)
execute_drains_pool_example =
    execute_drains_pool memory (swap ∷ too_much ∷ []) (31 ∷ 32 ∷ []) swap (tables start_rows)
      (omega arith)

abbrev two_stacks : List Row
two_stacks = stack 1 (pos 0) 7 (pos 5) ∷ stack 1 (pos 1) 7 (pos 5) ∷ []

theft-done : (transact memory (session (upload 7 (negsuc 0) ∷ []) []) (tables start_rows)).1 ≡ done
unfolding run_statement run_select slot_found select_inventory_item_slot changed_some
    update_inventory_item_count_plus update_inventory_item_count_minus next_slot
    select_next_inventory_slot_pos ran_at_all insert_inventory_item delete_inventory_item
    decrease_item insert_new add_to_inventory increase_item move_items transact fetch effect
    affected has_row ◌+ℤ◌ ◌-ℤ◌
theft-done = refl

transact_negative_steals_example :
    let d' = (transact memory (session (upload 7 (negsuc 0) ∷ []) []) (tables start_rows)).0 in
    (amount_of 1 7 d'.now ≡ amount_of 1 7 start_rows +ℤ pos 1)
    × (amount_of 2 7 d'.now +ℤ pos 1 ≡ amount_of 2 7 start_rows)
transact_negative_steals_example =
    transact_negative_steals memory memory-IsMysql swap (upload 7 (negsuc 0)) 0 (tables start_rows)
      (λ d. refl) refl (λ e. omega arith) start_rows-IsInventory theft-done
