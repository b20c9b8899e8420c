-- ===== src/Trade/Sessions/Outcomes.antt =====
-- What the calls of the trade service leave in the session table.
use ll2games_rpg.Prelude.{
  ◌||◌, ℕ, ◌≡◌, ◌≢◌, ◌==◌, refl, sym, subst, ◌∙◌, true, false, none, some, [], arith, if◌then◌else◌,
}
use ll2games_rpg.Prelude.Dict.{lookup, insert, erase, lookup-insert, lookup-erase}
use ll2games_rpg.Database.{Mysql}
use ll2games_rpg.Trade.{done, waiting, Player, TradeSession}
use ll2games_rpg.Trade.Sessions.Lookup.{look_found, look_missing, deref_at}
use ll2games_rpg.Trade.Sessions.{
  Sessions, Service, fault, ran, start, deref, store, ready, ready_in, mark_ready, both_ready,
  delete_trade_session, cancel, create_trade_session, new_session, refuse, session_not_found,
  get_trade_session, get_target_player, get_my_items, get_target_items,
}

start_creates :
    (a b : Player) (s : Sessions)
    → (start (some a) (some b) s).1.code ≡ done
    → (start (some a) (some b) s).0 ≡ create_trade_session a b s
unfolding start refuse
start_creates a b s ok = ground arith

abbrev Pairs : Player → Player → ℕ → Sessions → Type 0
Pairs a b p s' =
    (get_trade_session (some a) s' ≡ some p)
    × (get_trade_session (some b) s' ≡ some p)
    × (get_target_player (some a) s' ≡ ran (some b.address))
    × (get_target_player (some b) s' ≡ ran (some a.address))

create-Pairs :
    (a b : Player) (s : Sessions)
    → a.id ≢ b.id
    → a.address ≢ b.address
    → Pairs a b s.next (create_trade_session a b s)
unfolding create_trade_session new_session get_trade_session get_target_player deref
create-Pairs a b s ids addresses =
    let at_a : lookup a.id (create_trade_session a b s).table ≡ some (some s.next) = ground (
      arith,
      lookup-insert b.id a.id (some s.next) (insert a.id (some s.next) s.table),
      lookup-insert a.id a.id (some s.next) s.table,
    ) in
    let at_b : lookup b.id (create_trade_session a b s).table ≡ some (some s.next) =
      ground (arith, lookup-insert b.id b.id (some s.next) (insert a.id (some s.next) s.table)) in
    (
      rw (get_trade_session, at_a) refl,
      rw (get_trade_session, at_b) refl,
      rw (get_target_player, at_a) (ground arith),
      rw (get_target_player, at_b) (ground arith),
    )

-- A trade that Start opens between two players is found from both sides, and each side is told the
-- other one's player.
pub start_pairs :
    (a b : Player) (s : Sessions)
    → a.id ≢ b.id
    → a.address ≢ b.address
    → (start (some a) (some b) s).1.code ≡ done
    → (get_trade_session (some a) (start (some a) (some b) s).0 ≡ some s.next)
      × (get_trade_session (some b) (start (some a) (some b) s).0 ≡ some s.next)
      × (get_target_player (some a) (start (some a) (some b) s).0 ≡ ran (some b.address))
      × (get_target_player (some b) (start (some a) (some b) s).0 ≡ ran (some a.address))
start_pairs a b s ids addresses ok =
    subst (λ s'. Pairs a b s.next s') (sym (start_creates a b s ok))
      (create-Pairs a b s ids addresses)

-- For a player in no trade, Cancel replies "trade session not found", but leaves a null pointer in
-- the table, and the next question for the target or the items, which had an answer before, reads
-- through it.
pub cancel_then_fault :
    (p : Player) (s : Sessions)
    → lookup p.id s.table ≡ none
    → (get_target_player (some p) s ≡ ran none)
      × ((s' : Sessions) × (cancel (some p) s ≡ ran (s', refuse session_not_found))
          × (get_target_player (some p) s' ≡ fault)
          × (get_my_items (some p) s' ≡ fault)
          × (get_target_items (some p) s' ≡ fault))
unfolding cancel get_target_player get_my_items get_target_items deref
cancel_then_fault p s e =
    let ins : lookup p.id (insert p.id none s.table) ≡ some none =
      ground (arith, lookup-insert p.id p.id none s.table) in
    (
      rw (get_target_player, e) refl,
      (
        record s { table = insert p.id none s.table },
        look_missing p.id s (λ s'. ran (s', refuse session_not_found))
            (λ q s'. elim (delete_trade_session (some q) s') [
              | fault ↦ fault
              | ran s'' ↦ ran (s'', record { code = done; message = none; sent = [] })
            ])
            e,
        rw (get_target_player, ins) refl,
        rw (get_my_items, ins) refl,
        rw (get_target_items, ins) refl,
      ),
    )

-- Cancel by a player with a session removes the session of both of its players, and no other entry
-- of the table.
pub cancel_ends :
    (p : Player) (s : Sessions) (q : ℕ) (t : TradeSession)
    → lookup p.id s.table ≡ some (some q)
    → lookup q s.heap ≡ some t
    → (s' : Sessions) × (cancel (some p) s
        ≡ ran (s', record { code = done; message = none; sent = [] }))
      × ((k : ℕ)
          → lookup k s'.table ≡ (if k == t.a_id || k == t.b_id then none else lookup k s.table))
unfolding cancel delete_trade_session deref
cancel_ends p s q t e at = (
  record s { table = erase t.b_id (erase t.a_id s.table); heap = erase q s.heap },
  look_found p.id q s (λ s'. ran (s', refuse session_not_found))
        (λ q s'. elim (delete_trade_session (some q) s') [
          | fault ↦ fault
          | ran s'' ↦ ran (s'', record { code = done; message = none; sent = [] })
        ])
        e
      ∙ rw (delete_trade_session, deref, at) refl,
  λ k. ground (arith, lookup-erase t.b_id k (erase t.a_id s.table), lookup-erase t.a_id k s.table),
)

-- Ready by the first of the two players to be ready sets that player's flag and waits: the database
-- and the pool stay as they were.
pub ready_waits :
    (m : Mysql) (p : Player) (v : Service m) (q : ℕ) (t : TradeSession)
    → lookup p.id v.sessions.table ≡ some (some q)
    → lookup q v.sessions.heap ≡ some t
    → t.a_id ≢ t.b_id
    → (t.a_id ≡ p.id) × (t.a_player ≡ p.address)
    → t.b_ready ≡ false
    → ready m (some p) v
      ≡ ran (
        record v { sessions = store (some q) (record t { a_ready = true }) v.sessions },
        record { code = waiting; message = none; sent = [] },
      )
unfolding ready ready_in mark_ready both_ready
ready_waits m p v q t e at differ (is_a, is_a') not_ready =
    look_found p.id q v.sessions (λ s'. ran (record v { sessions = s' }, refuse session_not_found))
      (λ q s'. deref (some q) s' (ready_in m p v s' q)) e
    ∙ deref_at q t v.sessions (ready_in m p v v.sessions q) at
    ∙ ground arith
