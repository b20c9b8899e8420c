-- ===== src/Trade/Sessions/Lifecycle.antt =====
-- Any sequence of calls of the trade service, from an empty table on.
use ll2games_rpg.Prelude.{
  ℕ, ◌≡◌, sym, subst, ◌∙◌, not, ◌||◌, inl, inr, Option, none, some, List, [], ◌∷◌, arith,
  Option-cases, if_both,
}
use ll2games_rpg.Prelude.Dict.{lookup, insert}
use ll2games_rpg.Database.{Mysql}
use ll2games_rpg.Trade.{done, TradeItem, Player, TradeSession}
use ll2games_rpg.Trade.Execute.{execute}
use ll2games_rpg.Trade.Execute.Ids.{execute_ids}
use ll2games_rpg.Trade.Sessions.{
  Packet, trade_start, no_map, same_map, Sessions, Service, Run, fault, ran, Reply, refuse,
  session_not_found, PlayerPtr, start, at_index, deref, store, upload_item, put_item, ready,
  ready_in, mark_ready, both_ready, delete_trade_session, cancel,
}
use ll2games_rpg.Trade.Sessions.Lookup.{at_index_found, at_index_missing, deref_at}
use ll2games_rpg.Trade.Sessions.Invariant.{
  IsValid, create-IsValid, at_index-IsValid, store-IsValid, delete-IsValid,
}

-- The packets that reach the service, with the players that the handlers looked up.
pub data Event : Type 0 where
  starts : PlayerPtr → PlayerPtr → Event
  uploads : PlayerPtr → TradeItem → Event
  readies cancels : PlayerPtr → Event

pub with_sessions : {m : Mysql} → Service m → Run (Sessions × Reply) → Run (Service m)
with_sessions v fault = fault
with_sessions v (ran (s, _)) = ran (record v { sessions = s })

unfoldable pub without_reply : {m : Mysql} → Run (Service m × Reply) → Run (Service m)
without_reply fault = fault
without_reply (ran (v, _)) = ran v

pub step : (m : Mysql) → Service m → Event → Run (Service m)
step m v (starts a b) = ran (record v { sessions = (start a b v.sessions).0 })
step m v (uploads p item) = with_sessions v (upload_item p item v.sessions)
step m v (readies p) = without_reply (ready m p v)
step m v (cancels p) = with_sessions v (cancel p v.sessions)

-- A fault ends the run.
pub run : (m : Mysql) → Service m → List Event → Run (Service m)
run m v [] = ran v
run m v (e ∷ es) = elim (step m v e) [ fault ↦ fault | ran v' ↦ run m v' es ]

abbrev pub Good : {m : Mysql} → Run (Service m) → Type 0
Good fault = ⊥
Good (ran v) = IsValid v.sessions

abbrev pub Kept : Run (Sessions × Reply) → Type 0
Kept fault = ⊥
Kept (ran (s, r)) = IsValid s

pub start-IsValid : (a b : PlayerPtr) (s : Sessions) → IsValid s → IsValid (start a b s).0
unfolding start
start-IsValid none b s v = v
start-IsValid (some a) none s v = v
start-IsValid (some a) (some b) s v = ground (arith, create-IsValid a b s v)

-- A start sends nothing, or one packet to each of its players.
pub start_sends {ℓ} :
    (P : List Packet → Type ℓ) (a b : Player) (s : Sessions)
    → P []
    → P (trade_start a.id b.id ∷ trade_start b.id a.id ∷ [])
    → P (start (some a) (some b) s).1.sent
unfolding start refuse
start_sends P a b s none_sent both_sent =
    let Q = λ (r : Sessions × Reply). P r.1.sent in
    if_both Q (no_map a.map || no_map b.map) none_sent (
      if_both Q (not (same_map a.map b.map)) none_sent
        (if_both Q (not a.alive || not b.alive) none_sent both_sent))

put_item_ids :
    (p : Player) (item : TradeItem) (t : TradeSession)
    → ((put_item p item t).a_id ≡ t.a_id) × ((put_item p item t).b_id ≡ t.b_id)
unfolding put_item
put_item_ids p item t = ground arith

at_index_missing-IsValid :
    (id : ℕ) (s : Sessions)
    → lookup id s.table ≡ none
    → IsValid s
    → IsValid (record s { table = insert id none s.table })
at_index_missing-IsValid id s e v =
    subst (λ r. IsValid r.1) (at_index_missing id s e) (at_index-IsValid id s v)

-- Every operation looks its player up, and goes on with a session that is really there.
found_session :
    {A : Type 0} (P : Run A → Type 0) (id : ℕ) (s : Sessions) (missing : Sessions → Run A)
    (found : ℕ → Sessions → Run A)
    → IsValid s
    → ((s' : Sessions) → IsValid s' → P (missing s'))
    → ((q : ℕ) (t : TradeSession) → lookup q s.heap ≡ some t → P (found q s))
    → P (let (p, s') = at_index id s in elim p [ none ↦ missing s' | some q ↦ found q s' ])
found_session P id s missing found v h k =
    let go : Option ℕ × Sessions → Type 0 =
      λ (p, s'). P (elim p [ none ↦ missing s' | some q ↦ found q s' ]) in
    elim (Option-cases (lookup id s.table)) [
      | inl e ↦ subst go (sym (at_index_missing id s e)) (h _ (at_index_missing-IsValid id s e v))
      | inr (none, e) ↦ subst go (sym (at_index_found id s none e)) (h s v)
      | inr (some q, e) ↦
          let (t, at, owner) = v.points id q e in
          subst go (sym (at_index_found id s (some q) e)) (k q t at)
    ]

upload_item-Kept :
    (p : PlayerPtr) (item : TradeItem) (s : Sessions) → IsValid s → Kept (upload_item p item s)
unfolding upload_item
upload_item-Kept none item s v = v
upload_item-Kept (some p) item s v =
    found_session Kept p.id s (λ s'. ran (s', refuse session_not_found))
      (λ q s'. deref (some q) s' (λ t.
        ran (
          store (some q) (put_item p item t) s',
          record { code = done; message = none; sent = [] },
        )))
      v (λ s' v'. v')
      (λ q t at.
        let (a, b) = put_item_ids p item t in
        subst Kept (sym (deref_at q t s _ at)) (store-IsValid q t (put_item p item t) s at a b v))

pub cancel-Kept : (p : PlayerPtr) (s : Sessions) → IsValid s → Kept (cancel p s)
unfolding cancel delete_trade_session deref
cancel-Kept none s v = v
cancel-Kept (some p) s v =
    found_session Kept p.id s (λ s'. ran (s', refuse session_not_found))
      (λ q s'. elim (delete_trade_session (some q) s') [
        | fault ↦ fault
        | ran s'' ↦ ran (s'', record { code = done; message = none; sent = [] })
      ])
      v (λ s' v'. v') (λ q t at. rw (Kept, deref, at) (delete-IsValid q t s at v))

pub mark_ready_ids :
    (p : Player) (t : TradeSession)
    → ((mark_ready p t).a_id ≡ t.a_id) × ((mark_ready p t).b_id ≡ t.b_id)
unfolding mark_ready
mark_ready_ids p t = ground arith

ready_in-Good :
    (m : Mysql) (p : Player) (v : Service m) (q : ℕ) (t : TradeSession)
    → lookup q v.sessions.heap ≡ some t
    → IsValid v.sessions
    → Good (without_reply (ready_in m p v v.sessions q t))
unfolding ready_in without_reply
ready_in-Good m p v q t at h =
    let (a, b) = mark_ready_ids p t in
    let (a', b') = execute_ids m (mark_ready p t) v.pool v.db in
    if_both (λ (r : Run (Service m × Reply)). Good (without_reply r))
      (both_ready p (mark_ready p t))
      (store-IsValid q t (execute m (mark_ready p t) v.pool v.db).3 v.sessions at (a' ∙ a) (b' ∙ b)
        h)
      (store-IsValid q t (mark_ready p t) v.sessions at a b h)

pub ready-Good :
    (m : Mysql) (p : PlayerPtr) (v : Service m)
    → IsValid v.sessions
    → Good (without_reply (ready m p v))
unfolding ready without_reply
ready-Good m none v h = h
ready-Good m (some p) v h =
    found_session (λ (r : Run (Service m × Reply)). Good (without_reply r)) p.id v.sessions
      (λ s'. ran (record v { sessions = s' }, refuse session_not_found))
      (λ q s'. deref (some q) s' (ready_in m p v s' q)) h (λ s' h'. h')
      (λ q t at.
        subst (λ (r : Run (Service m × Reply)). Good (without_reply r))
          (sym (deref_at q t v.sessions (ready_in m p v v.sessions q) at))
          (ready_in-Good m p v q t at h))

with_sessions-Good :
    (m : Mysql) (v : Service m) (r : Run (Sessions × Reply)) → Kept r → Good (with_sessions v r)
unfolding with_sessions
with_sessions-Good m v fault k = k
with_sessions-Good m v (ran (s, r)) k = k

step-Good : (m : Mysql) (v : Service m) (e : Event) → IsValid v.sessions → Good (step m v e)
unfolding step
step-Good m v (starts a b) h = start-IsValid a b v.sessions h
step-Good m v (uploads p item) h = with_sessions-Good m v _ (upload_item-Kept p item v.sessions h)
step-Good m v (readies p) h = ready-Good m p v h
step-Good m v (cancels p) h = with_sessions-Good m v _ (cancel-Kept p v.sessions h)

-- From a valid table, whatever calls of Start, UploadItem, Ready and Cancel follow, with null
-- players and unknown players among them, no call reads through a null or a dangling session
-- pointer, and the table that is left is valid.
pub run-Good :
    (m : Mysql) (v : Service m) (es : List Event) → IsValid v.sessions → Good (run m v es)
unfolding run
run-Good m v [] h = h
run-Good m v (e ∷ es) h = go (λ v'. run-Good m v' es) (step m v e) (step-Good m v e h)
  where
    go :
        ((v' : Service m) → IsValid v'.sessions → Good (run m v' es))
        → (r : Run (Service m)) → Good r
        → Good (elim r [ fault ↦ fault | ran v' ↦ run m v' es ])
    go rest fault k = k
    go rest (ran v') k = rest v' k
