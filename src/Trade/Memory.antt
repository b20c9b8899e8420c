-- ===== src/Trade/Memory.antt =====
-- A MySQL server that keeps its tables in memory, for the runs of the trade service.
use ll2games_rpg.Prelude.{refl, true, some, List, arith, if◌then◌else◌}
use ll2games_rpg.Prelude.Int.{pos}
use ll2games_rpg.Database.{Mysql, IsMysql, Fetch, row, no_data}
use ll2games_rpg.Database.Rows.{Row, Query, select_item_slot, effect, affected, has_row}

pub record Tables : Type 0 where
  pub now : List Row
  pub before : List Row

unfoldable pub fetch : Query → Tables → Fetch
fetch (select_item_slot c i) d = if has_row c i d.now then row (pos 0) else no_data
fetch _ d = row (pos 0)

abbrev pub memory : Mysql
memory = record {
  Db = Tables;
  rows = λ d. d.now;
  saved = λ d. d.before;
  stmt_init = λ d. true;
  stmt_prepare = λ q d. true;
  stmt_bind_param = λ q d. true;
  stmt_execute = λ q d. (record d { now = effect q d.now }, some (affected q d.now));
  stmt_bind_result = λ q d. true;
  stmt_store_result = λ q d. true;
  stmt_fetch = fetch;
  start_accepted = λ d. true;
  start_transaction = λ d. record d { before = d.now };
  commit_accepted = λ d. true;
  commit = λ d. d;
  rollback_accepted = λ d. true;
  rollback = λ d. record d { now = d.before };
}

pub memory-IsMysql : IsMysql memory
unfolding fetch
memory-IsMysql = record {
  execute_effect = λ q d n e. refl;
  execute_affected = λ q d n e. ground arith;
  execute_failed = λ q d e. ground arith;
  execute_saved = λ q d. refl;
  fetch_no_data = λ c i d e. ground arith;
  start_rows = λ d. refl;
  start_saved = λ d accepted. refl;
  commit_rows = λ d accepted. refl;
  rollback_rows = λ d accepted. refl;
}
