-- ===== src/Database/Statement.antt =====
-- A query with the MySQL C API, as SERVER/src/CHANNEL/db/PlayerService.cpp, PlayerManager::GetPlayer
-- by a name and SERVER/src/WORLD/app/CharacterService.cpp run it. The answers of the API are
-- arguments: a flag for each call, true where it reports success, and what the fetches give.
use ll2games_rpg.Prelude.{
  ℕ, suc, ◌-◌, Bool, false, not, Option, none, some, List, [], ◌∷◌, if◌then◌else◌,
}
use ll2games_rpg.Database.Pool.{Pool, get_connection, release_connection}

-- What `mysql_stmt_fetch` reports; MYSQL_NO_DATA is the end of the list.
pub data Fetched (R : Type 0) : Type 0 where
  row truncated : R → Fetched R
  fetch_error : Fetched R

-- The calls before the first fetch, in their order.
pub record Answers : Type 0 where
  pub init : Bool
  pub prepare : Bool
  pub bind_param : Bool
  pub execute : Bool
  pub bind_result : Bool
  pub store_result : Bool

-- The idle connections, and the number of statements that are open.
pub record Handles : Type 0 where
  pub pool : Pool
  pub statements : ℕ

-- ReleaseConnection, and mysql_stmt_close before it.
unfoldable pub release : ℕ → Handles → Handles
release conn h = record h { pool = release_connection (some conn) h.pool }

unfoldable pub close : ℕ → Handles → Handles
close conn h = release conn (record h { statements = h.statements - 1 })

-- From GetConnection to mysql_stmt_store_result: the connection, if all went well.
unfoldable pub open_query : Answers → Handles → Handles × Option ℕ
open_query a h =
    let (found, pool) = get_connection h.pool in
    let taken = record h { pool = pool } in
    elim found [
      | none ↦ (taken, none)
      | some conn ↦
          let opened = record taken { statements = suc h.statements } in
          if not a.init
          then (release conn taken, none)
          else if not a.prepare
          then (close conn opened, none)
          else if not a.bind_param
          then (close conn opened, none)
          else if not a.execute
          then (close conn opened, none)
          else if not a.bind_result
          then (close conn opened, none)
          else if not a.store_result
          then (close conn opened, none)
          else (opened, some conn)
    ]

-- A query with what is done to a state while its rows are fetched.
unfoldable pub with_query :
    {S : Type 0} → Answers → (S → S × Bool) → Handles × S → Handles × S × Bool
with_query a use_rows (h, s) =
    let (h', found) = open_query a h in
    elim found [
      | none ↦ (h', s, false)
      | some conn ↦ let (s', success) = use_rows s in (close conn h', s', success)
    ]

-- The single fetch of LoadPlayerInfo and LoadPlayerStat: a truncated row counts as one.
unfoldable pub first_row : {R : Type 0} → List (Fetched R) → Option R
first_row [] = none
first_row (row r ∷ rows) = some r
first_row (truncated r ∷ rows) = some r
first_row (fetch_error ∷ rows) = none
