-- ===== src/Trade/Sessions.antt =====
-- The trade sessions of TradeService: the static table `m_sessions` from player ids to session
-- pointers, and the sessions that `new` has put on the heap.
pub mod Lookup
pub mod Found
pub mod Invariant
pub mod Lifecycle
pub mod Readied
pub mod Outcomes
mod Tests
use ll2games_rpg.Prelude.{
  ℕ, suc, ◌+◌, Bool, true, false, not, ◌&&◌, ◌||◌, Option, none, some, List, [], ◌∷◌, ◌++◌, ◌==◌,
  if◌then◌else◌,
}
use ll2games_rpg.Prelude.Dict.{Dict, lookup, insert, erase}
use ll2games_rpg.Database.{Mysql}
use ll2games_rpg.Database.Pool.{Pool}
use ll2games_rpg.Trade.{Code, done, failed, waiting, TradeItem, Player, TradeSession}
use ll2games_rpg.Trade.Execute.{execute}

-- The texts of `errMsg`.
pub data Error : Type 0 where
  invalid_player target_not_alive map_invalid maps_differ not_alive session_not_found : Error

-- PKT_TRADE_REQUEST and PKT_TRADE_START, to the player with the first id, about the second.
pub data Packet : Type 0 where
  trade_request trade_start : ℕ → ℕ → Packet

-- The player through whose session a packet goes.
unfoldable pub recipient : Packet → ℕ
recipient (trade_request to about) = to
recipient (trade_start to about) = to

-- An entry `none` of the table is a null pointer, which `m_sessions[id]` puts there for a missing
-- key. `next` is the address of the next session.
pub record Sessions : Type 0 where
  pub table : Dict (Option ℕ)
  pub heap : Dict TradeSession
  pub next : ℕ

-- `fault` is a read through a null or a dangling pointer. An exception is a reply with the code `threw`.
pub data Run {ℓ} (A : Type ℓ) : Type ℓ where
  fault : Run A
  ran : A → Run A

pub record Reply : Type 0 where
  pub code : Code
  pub message : Option Error
  pub sent : List Packet

unfoldable pub refuse : Error → Reply
refuse e = record { code = failed; message = some e; sent = [] }

-- A `Player*` that may be null.
abbrev pub PlayerPtr : Type 0
PlayerPtr = Option Player

-- Request: nothing is stored.
pub request : PlayerPtr → PlayerPtr → Reply
request none target = refuse invalid_player
request (some requester) none = refuse invalid_player
request (some requester) (some target) =
    if not target.alive
    then refuse target_not_alive
    else record { code = done; message = none; sent = trade_request target.id requester.id ∷ [] }

new_session : Player → Player → TradeSession
new_session a b = record {
  a_player = a.address;
  b_player = b.address;
  a_id = a.id;
  b_id = b.id;
  a_ready = false;
  b_ready = false;
  a_items = [];
  b_items = [];
}

-- An older session of either player stays on the heap; only the table forgets it.
pub create_trade_session : Player → Player → Sessions → Sessions
create_trade_session a b s = record {
  table = insert b.id (some s.next) (insert a.id (some s.next) s.table);
  heap = (s.next, new_session a b) ∷ s.heap;
  next = suc s.next;
}

same_map : Option ℕ → Option ℕ → Bool
same_map (some x) (some y) = x == y
same_map _ _ = false

no_map : Option ℕ → Bool
no_map none = true
no_map (some x) = false

pub start : PlayerPtr → PlayerPtr → Sessions → Sessions × Reply
start none accepter s = (s, refuse invalid_player)
start (some requester) none s = (s, refuse invalid_player)
start (some requester) (some accepter) s =
    if no_map requester.map || no_map accepter.map
    then (s, refuse map_invalid)
    else if not (same_map requester.map accepter.map)
    then (s, refuse maps_differ)
    else if not requester.alive || not accepter.alive
    then (s, refuse not_alive)
    else (
      create_trade_session requester accepter s,
      record {
        code = done;
        message = none;
        sent = trade_start requester.id accepter.id ∷ trade_start accepter.id requester.id ∷ [];
      },
    )

-- `m_sessions[id]`, which adds a null pointer for a missing key.
pub at_index : ℕ → Sessions → Option ℕ × Sessions
at_index id s = elim (lookup id s.table) [
  | none ↦ (none, record s { table = insert id none s.table })
  | some p ↦ (p, s)
]

-- The `->` of a session pointer.
pub deref {ℓ} : {A : Type ℓ} → Option ℕ → Sessions → (TradeSession → Run A) → Run A
deref none s k = fault
deref (some p) s k = elim (lookup p s.heap) [ none ↦ fault | some session ↦ k session ]

-- Writing back through a session pointer.
pub store : Option ℕ → TradeSession → Sessions → Sessions
store none session s = s
store (some p) session s = record s { heap = insert p session s.heap }

pub put_item : Player → TradeItem → TradeSession → TradeSession
put_item player item session =
    if session.a_player == player.address
    then record session { a_items = session.a_items ++ item ∷ [] }
    else record session { b_items = session.b_items ++ item ∷ [] }

pub upload_item : PlayerPtr → TradeItem → Sessions → Run (Sessions × Reply)
upload_item none item s = ran (s, refuse invalid_player)
upload_item (some player) item s =
    let (p, s') = at_index player.id s in
    elim p [
      | none ↦ ran (s', refuse session_not_found)
      | some q ↦ deref (some q) s' (λ session. ran (
        store (some q) (put_item player item session) s',
        record { code = done; message = none; sent = [] },
      ))
    ]

pub mark_ready : Player → TradeSession → TradeSession
mark_ready player session =
    if session.a_player == player.address
    then record session { a_ready = true }
    else record session { b_ready = true }

-- The test of step 4, on the ids and not on the pointers.
pub both_ready : Player → TradeSession → Bool
both_ready player session =
    (session.a_id == player.id && session.b_ready) || (session.b_id == player.id && session.a_ready)

-- The service with the database it trades in.
pub record Service (m : Mysql) : Type 0 where
  pub sessions : Sessions
  pub pool : Pool
  pub db : m.Db

-- Steps 3 to 6, once the session is found.
pub ready_in :
    (m : Mysql) → Player → Service m → Sessions → ℕ → TradeSession → Run (Service m × Reply)
ready_in m player v s' q session =
    let session' = mark_ready player session in
    if both_ready player session'
    then (let (pool', db', code, traded) = execute m session' v.pool v.db in
        ran (
          record { sessions = store (some q) traded s'; pool = pool'; db = db' },
          record { code = code; message = none; sent = [] },
        ))
    else ran (
      record v { sessions = store (some q) session' s' },
      record { code = waiting; message = none; sent = [] },
    )

pub ready : (m : Mysql) → PlayerPtr → Service m → Run (Service m × Reply)
ready m none v = ran (v, refuse invalid_player)
ready m (some player) v =
    let (p, s') = at_index player.id v.sessions in
    elim p [
      | none ↦ ran (record v { sessions = s' }, refuse session_not_found)
      | some q ↦ deref (some q) s' (ready_in m player v s' q)
    ]

-- `delete` takes the session off the heap.
pub delete_trade_session : Option ℕ → Sessions → Run Sessions
delete_trade_session none s = ran s
delete_trade_session (some p) s = deref (some p) s (λ session.
    ran
      (record s { table = erase session.b_id (erase session.a_id s.table); heap = erase p s.heap }))

pub cancel : PlayerPtr → Sessions → Run (Sessions × Reply)
cancel none s = ran (s, refuse invalid_player)
cancel (some player) s =
    let (p, s') = at_index player.id s in
    elim p [
      | none ↦ ran (s', refuse session_not_found)
      | some q ↦ elim (delete_trade_session (some q) s') [
        | fault ↦ fault
        | ran s'' ↦ ran (s'', record { code = done; message = none; sent = [] })
      ]
    ]

-- A null pointer for a missing key, and whatever the table holds otherwise.
pub get_trade_session : PlayerPtr → Sessions → Option ℕ
get_trade_session none s = none
get_trade_session (some player) s = elim (lookup player.id s.table) [ none ↦ none | some p ↦ p ]

-- The other player's address, or a null pointer.
pub get_target_player : PlayerPtr → Sessions → Run (Option ℕ)
get_target_player none s = ran none
get_target_player (some player) s = elim (lookup player.id s.table) [
  | none ↦ ran none
  | some p ↦ deref p s (λ session.
      ran (
        if session.a_player == player.address
        then some session.b_player
        else some session.a_player))
]

pub get_my_items : PlayerPtr → Sessions → Run (List TradeItem)
get_my_items none s = ran []
get_my_items (some player) s = elim (lookup player.id s.table) [
  | none ↦ ran []
  | some p ↦ deref p s (λ session.
      ran (if player.address == session.a_player then session.a_items else session.b_items))
]

pub get_target_items : PlayerPtr → Sessions → Run (List TradeItem)
get_target_items none s = ran []
get_target_items (some player) s = elim (lookup player.id s.table) [
  | none ↦ ran []
  | some p ↦ deref p s (λ session.
      ran (if player.address == session.a_player then session.b_items else session.a_items))
]
