-- ===== src/Trade/Execute/Faults.antt =====
-- What `Execute` does where its unstated assumptions fail: connections, stacks in two slots,
-- negative amounts.
use ll2games_rpg.Prelude.{
  ℕ, suc, ◌≤◌, ◌≡◌, ◌≢◌, refl, inl, inr, true, List, [], ◌∷◌, arith, ap, sym, length,
}
use ll2games_rpg.Prelude.Int.{pos, negsuc, ◌+ℤ◌, int_laws, eq_parts, eq_of_parts}
use ll2games_rpg.Database.{Mysql, IsMysql}
use ll2games_rpg.Database.Rows.{count_plus, count_minus, has_row, effect, affected}
use ll2games_rpg.Database.Rows.Laws.{amount_of, times, IsNonneg}
use ll2games_rpg.Database.Rows.Statements.{
  IsInventory, minus_amount, plus_amount, delete_empty_amount, minus-IsNonneg,
}
use ll2games_rpg.Database.Pool.{Pool, get_connection}
use ll2games_rpg.Trade.{done, failed, TradeItem, TradeSession}
use ll2games_rpg.Trade.Execute.{decrease_item, increase_item, move_items, transact, execute}
use ll2games_rpg.Trade.Execute.Amounts.{decrease_done}
use ll2games_rpg.Trade.Execute.Increase.{increase_done}
use ll2games_rpg.Trade.Execute.Exchange.{share_self, share_other, decrease-shares, increase-shares}

-- One trade after another.
pub execute_all : (m : Mysql) → List TradeSession → Pool → m.Db → Pool × m.Db
execute_all m [] pool d = (pool, d)
execute_all m (s ∷ ss) pool d =
    let (pool', d', _, _) = execute m s pool d in execute_all m ss pool' d'

execute_pool :
    (m : Mysql) (s : TradeSession) (pool : Pool) (d : m.Db)
    → (execute m s pool d).0 ≡ (get_connection pool).1
unfolding execute
execute_pool m s pool d = ground arith

execute_all_drains :
    (m : Mysql) (ss : List TradeSession) (pool : Pool) (d : m.Db)
    → length pool ≤ length ss
    → (execute_all m ss pool d).0 ≡ []
unfolding execute_all get_connection execute
execute_all_drains m [] [] d h = refl
execute_all_drains m [] (conn ∷ pool) d h = absurd (omega arith)
execute_all_drains m (s ∷ ss) [] d h =
    let (pool', d', _, _) = execute m s [] d in
    rw (execute_pool m s [] d) (execute_all_drains m ss [] d' (omega arith))
execute_all_drains m (s ∷ ss) (conn ∷ pool) d h =
    let (pool', d', _, _) = execute m s (conn ∷ pool) d in
    rw (execute_pool m s (conn ∷ pool) d) (execute_all_drains m ss pool d' (omega arith))

-- `Execute` never gives its connection back: once as many trades were run as the pool had
-- connections, whatever they came to, every further trade fails and changes nothing.
pub execute_drains_pool :
    (m : Mysql) (ss : List TradeSession) (pool : Pool) (s : TradeSession) (d : m.Db)
    → length pool ≤ length ss
    → let (pool', d') = execute_all m ss pool d in execute m s pool' d' ≡ ([], d', failed, s)
unfolding execute get_connection
execute_drains_pool m ss pool s d h = rw (execute_all_drains m ss pool d h)

-- The giver's UPDATE goes to every row of the character and item that has enough. With the item in
-- several slots the giver loses the amount once for each row that the statement hits, where the trade
-- was for the amount once. The condition is that no count is negative.
pub decrease_every_row :
    (m : Mysql) (laws : IsMysql m) (owner : ℕ) (item : TradeItem) (d : m.Db)
    → (decrease_item m owner item d).1 ≡ done
    → IsNonneg (m.rows d)
    → amount_of owner item.id (m.rows (decrease_item m owner item d).0)
        +ℤ times (affected (count_minus item.amount owner item.id) (m.rows d)) item.amount
      ≡ amount_of owner item.id (m.rows d)
decrease_every_row m laws owner item d ok n =
    let (_, e) = decrease_done m laws owner item d ok in
    let q = count_minus item.amount owner item.id in
    rw
      (
        e,
        delete_empty_amount owner item.id owner item.id (effect q (m.rows d))
            (minus-IsNonneg item.amount owner item.id (m.rows d) n),
      )
      (minus_amount item.amount owner item.id (m.rows d))

-- The taker's UPDATE goes to every row of the character and item: the taker gains the amount once for
-- each of them.
pub increase_every_row :
    (m : Mysql) (laws : IsMysql m) (owner : ℕ) (item : TradeItem) (d : m.Db)
    → (increase_item m owner item d).1 ≡ done
    → has_row owner item.id (m.rows d) ≡ true
    → amount_of owner item.id (m.rows (increase_item m owner item d).0)
      ≡ amount_of owner item.id (m.rows d)
        +ℤ times (affected (count_plus item.amount owner item.id) (m.rows d)) item.amount
increase_every_row m laws owner item d ok has =
    let (_, how) = increase_done m laws owner item d ok in
    elim how [
      | inl (_, e) ↦ rw e (plus_amount item.amount owner item.id (m.rows d))
      | inr (r, fresh, _, _, _, e) ↦ cc
    ]

-- A negative amount turns the trade round: if it succeeds and the server accepts
-- its COMMIT, the one who uploaded it gains the amount
-- and the other side, who uploaded nothing, loses it, whatever that leaves them with.
pub transact_negative_steals :
    (m : Mysql) (laws : IsMysql m) (s : TradeSession) (item : TradeItem) (n : ℕ) (d : m.Db)
    → ((d' : m.Db) → m.commit_accepted d' ≡ true)
    → item.amount ≡ negsuc n
    → s.a_id ≢ s.b_id
    → IsInventory (m.rows d)
    → (transact m (record s { a_items = item ∷ []; b_items = [] }) d).1 ≡ done
    → let d' = (transact m (record s { a_items = item ∷ []; b_items = [] }) d).0 in
      (amount_of s.a_id item.id (m.rows d') ≡ amount_of s.a_id item.id (m.rows d) +ℤ pos (suc n))
      × (amount_of s.b_id item.id (m.rows d') +ℤ pos (suc n) ≡ amount_of s.b_id item.id (m.rows d))
unfolding transact move_items
transact_negative_steals m laws s item n d accepted en apart v ok =
    let d0 = m.start_transaction d in
    let d1 = (decrease_item m s.a_id item d0).0 in
    let d2 = (increase_item m s.b_id item d1).0 in
    let taken : (decrease_item m s.a_id item d0).1 ≡ done = ground arith in
    let given : (increase_item m s.b_id item d1).1 ≡ done = ground arith in
    let v0 : IsInventory (m.rows d0) = rw (laws.start_rows d) v in
    let (v1, e1) = decrease-shares m laws s.a_id item d0 taken v0 in
    let (_, e2) = increase-shares m laws s.b_id item d1 given v1 in
    let same = λ (c : ℕ). eq_parts (ap (amount_of c item.id) (laws.start_rows d)) in
    let amount = eq_parts en in
    let a = s.a_id in
    let b = s.b_id in
    let final : m.rows (transact m (record s { a_items = item ∷ []; b_items = [] }) d).0
        ≡ m.rows d2 =
      ground (arith, laws.commit_rows d2 (accepted d2)) in
    rw final (
      eq_of_parts _ _ (
          omega (
            int_laws,
            amount,
            same a,
            eq_parts (e1 a item.id),
            eq_parts (e2 a item.id),
            eq_parts (share_self a item),
            eq_parts (share_other b a item.id item (inl apart)),
          )),
      eq_of_parts _ _ (
          omega (
            int_laws,
            amount,
            same b,
            eq_parts (e1 b item.id),
            eq_parts (e2 b item.id),
            eq_parts (share_self b item),
            eq_parts (share_other a b item.id item (inl (λ e. apart (sym e)))),
          )),
    )
