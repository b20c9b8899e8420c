-- ===== src/Trade/Sessions/Readied.antt =====
-- What `Ready` leaves of the trade session of its player.
use ll2games_rpg.Prelude.{◌≡◌, ◌≢◌, refl, sym, subst, ◌∙◌, ℕ, if_both, arith}
use ll2games_rpg.Prelude.Dict.{insert_self}
use ll2games_rpg.Database.{Mysql}
use ll2games_rpg.Trade.{threw, Player, TradeSession}
use ll2games_rpg.Trade.Execute.{execute}
use ll2games_rpg.Trade.Execute.Ids.{execute_ids}
use ll2games_rpg.Trade.Execute.Numbers.{AreNumbers, execute_ends}
use ll2games_rpg.Trade.Sessions.{Service, Run, ran, Reply, store, ready_in, mark_ready, both_ready}
use ll2games_rpg.Trade.Sessions.Invariant.{IsValid, store-IsValid}
use ll2games_rpg.Trade.Sessions.Lifecycle.{mark_ready_ids}
use ll2games_rpg.Trade.Sessions.Found.{Trades}

-- A call that ends without an exception, with a valid table in which the player is still in the session.
abbrev pub Stays : {m : Mysql} → Player → ℕ → Run (Service m × Reply) → Type 0
Stays {m} p q r =
    (v : Service m) × (reply : Reply) × (t : TradeSession) × (r ≡ ran (v, reply))
    × (reply.code ≢ threw)
    × IsValid v.sessions
    × Trades p q t v.sessions

mark_ready_items :
    (p : Player) (t : TradeSession)
    → (AreNumbers t.a_items → AreNumbers (mark_ready p t).a_items)
      × (AreNumbers t.b_items → AreNumbers (mark_ready p t).b_items)
unfolding mark_ready
mark_ready_items p t =
    let same : ((mark_ready p t).a_items ≡ t.a_items) × ((mark_ready p t).b_items ≡ t.b_items) =
      ground arith in
    (subst AreNumbers (sym same.0), subst AreNumbers (sym same.1))

pub ready_in-Stays :
    (m : Mysql) (p : Player) (q : ℕ) (t : TradeSession) (v : Service m)
    → IsValid v.sessions
    → Trades p q t v.sessions
    → AreNumbers t.a_items
    → AreNumbers t.b_items
    → Stays p q (ready_in m p v v.sessions q t)
unfolding ready_in store
ready_in-Stays m p q t v h trades numbers_a numbers_b =
    let (a, b) = mark_ready_ids p t in
    let marked = mark_ready_items p t in
    let (a', b') = execute_ids m (mark_ready p t) v.pool v.db in
    let traded = (execute m (mark_ready p t) v.pool v.db).3 in
    if_both (Stays {m = m} p q) (both_ready p (mark_ready p t))
      (
        _,
        _,
        traded,
        refl,
        execute_ends m (mark_ready p t) v.pool v.db (marked.0 numbers_a) (marked.1 numbers_b),
        store-IsValid q t traded v.sessions trades.1 (a' ∙ a) (b' ∙ b) h,
        (trades.0, insert_self q traded v.sessions.heap),
      )
      (
        _,
        _,
        mark_ready p t,
        refl,
        λ e. cc,
        store-IsValid q t (mark_ready p t) v.sessions trades.1 a b h,
        (trades.0, insert_self q (mark_ready p t) v.sessions.heap),
      )
