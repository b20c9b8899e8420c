-- ===== src/Trade/Execute/Ids.antt =====
-- The players of a session while it is executed.
use ll2games_rpg.Prelude.{◌≡◌, refl, arith, inl, inr, Option-cases}
use ll2games_rpg.Database.{Mysql}
use ll2games_rpg.Database.Pool.{Pool, get_connection}
use ll2games_rpg.Trade.{TradeSession}
use ll2games_rpg.Trade.Execute.{transact, execute}

transact_ids :
    (m : Mysql) (t : TradeSession) (d : m.Db)
    → ((transact m t d).2.a_id ≡ t.a_id) × ((transact m t d).2.b_id ≡ t.b_id)
unfolding transact
transact_ids m t d = ground arith

pub execute_ids :
    (m : Mysql) (t : TradeSession) (pool : Pool) (d : m.Db)
    → ((execute m t pool d).3.a_id ≡ t.a_id) × ((execute m t pool d).3.b_id ≡ t.b_id)
unfolding execute
execute_ids m t pool d = elim (Option-cases (get_connection pool).0) [
  | inl e ↦ rw (execute, e) (refl, refl)
  | inr (c, e) ↦ rw (execute, e) (transact_ids m t d)
]
