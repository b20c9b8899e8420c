-- ===== src/Database.antt =====
-- What the server uses of MySQL: the C API calls on a prepared statement, as a parameter, and what
-- the MySQL manual says of the statements that TradeService.cpp sends.
pub mod Pool
pub mod Statement
pub mod Rows
use ll2games_rpg.Prelude.{ℕ, ◌≡◌, Bool, true, false, Option, none, some, List, ◌⊎◌}
use ll2games_rpg.Prelude.Int.{ℤ}
use Rows.{Row, Query, select_item_slot, effect, affected, has_row}

-- What `mysql_stmt_fetch` reports, with the column that was read.
pub data Fetch : Type 0 where
  row truncated : ℤ → Fetch
  no_data error : Fetch

-- The library that the server is linked with. A flag is true where the call reports success.
pub record Mysql : Type 1 where
  pub Db : Type 0
  pub rows : Db → List Row
  pub saved : Db → List Row
  pub stmt_init : Db → Bool
  pub stmt_prepare : Query → Db → Bool
  pub stmt_bind_param : Query → Db → Bool
  pub stmt_execute : Query → Db → Db × Option ℕ
  pub stmt_bind_result : Query → Db → Bool
  pub stmt_store_result : Query → Db → Bool
  pub stmt_fetch : Query → Db → Fetch
  pub start_accepted : Db → Bool
  pub start_transaction : Db → Db
  pub commit_accepted : Db → Bool
  pub commit : Db → Db
  pub rollback_accepted : Db → Bool
  pub rollback : Db → Db

-- The documented behaviour that the theorems use. `rows` is the table character_inventory as the
-- connection sees it, and `saved` is the table that ROLLBACK goes back to. `stmt_execute` answers
-- with the number that `mysql_stmt_affected_rows` reports. START TRANSACTION, COMMIT and ROLLBACK have
-- the effect that is stated where the server accepts them.
pub record IsMysql (m : Mysql) : Type 0 where
  pub execute_effect :
      (q : Query) (d : m.Db) (n : ℕ)
      → (m.stmt_execute q d).1 ≡ some n
      → m.rows (m.stmt_execute q d).0 ≡ effect q (m.rows d)
  pub execute_affected :
      (q : Query) (d : m.Db) (n : ℕ) → (m.stmt_execute q d).1 ≡ some n → n ≡ affected q (m.rows d)
  pub execute_failed :
      (q : Query) (d : m.Db)
      → (m.stmt_execute q d).1 ≡ none
      → m.rows (m.stmt_execute q d).0 ≡ m.rows d
  pub execute_saved : (q : Query) (d : m.Db) → m.saved (m.stmt_execute q d).0 ≡ m.saved d
  pub fetch_no_data :
      (c i : ℕ) (d : m.Db)
      → m.stmt_fetch (select_item_slot c i) d ≡ no_data
      → has_row c i (m.rows d) ≡ false
  pub start_rows : (d : m.Db) → m.rows (m.start_transaction d) ≡ m.rows d
  pub start_saved :
      (d : m.Db) → m.start_accepted d ≡ true → m.saved (m.start_transaction d) ≡ m.rows d
  pub commit_rows : (d : m.Db) → m.commit_accepted d ≡ true → m.rows (m.commit d) ≡ m.rows d
  pub rollback_rows : (d : m.Db) → m.rollback_accepted d ≡ true → m.rows (m.rollback d) ≡ m.saved d
