-- ===== src/Trade/Sessions/Found.antt =====
-- What the calls of a player who takes part in a trade come to.
use ll2games_rpg.Prelude.{
  ℕ, ◌≡◌, refl, ap, ◌∙◌, Bool, true, false, none, some, Option, List, [], ◌⊎◌, inl, inr, ◌==◌,
  if◌then◌else◌,
}
use ll2games_rpg.Prelude.Dict.{lookup, insert, erase}
use ll2games_rpg.Database.{Mysql}
use ll2games_rpg.Trade.{done, TradeItem, Player, TradeSession}
use ll2games_rpg.Trade.Sessions.{
  Sessions, Run, fault, ran, Reply, refuse, session_not_found, deref, store, put_item, upload_item,
  cancel, delete_trade_session, get_target_player, get_trade_session, get_my_items,
  get_target_items, ready, ready_in, Service,
}
use ll2games_rpg.Trade.Sessions.Lookup.{at_index_found, deref_at, look_found, look_missing}

-- The player takes part in a trade session.
abbrev pub Trades : Player → ℕ → TradeSession → Sessions → Type 0
Trades p q t s = (lookup p.id s.table ≡ some (some q)) × (lookup q s.heap ≡ some t)

-- The other player's pointer in a trade session.
abbrev pub partner_of : Player → TradeSession → ℕ
partner_of p t = if t.a_player == p.address then t.b_player else t.a_player

abbrev agreed : Reply
agreed = record { code = done; message = none; sent = [] }

some_if :
    (b : Bool) (x y : ℕ) → ran (if b then some x else some y) ≡ ran (some (if b then x else y))
some_if true x y = refl
some_if false x y = refl

pub target_found :
    (p : Player) (q : ℕ) (t : TradeSession) (s : Sessions)
    → Trades p q t s
    → get_target_player (some p) s ≡ ran (some (partner_of p t))
unfolding get_target_player
target_found p q t s h =
    rw (h.0, get_target_player)
      (deref_at q t s _ h.1 ∙ some_if (t.a_player == p.address) t.b_player t.a_player)

pub uploads :
    (p : Player) (q : ℕ) (t : TradeSession) (item : TradeItem) (s : Sessions)
    → Trades p q t s
    → upload_item (some p) item s ≡ ran (store (some q) (put_item p item t) s, agreed)
unfolding upload_item
uploads p q t item s h =
    look_found p.id q s (λ s'. ran (s', refuse session_not_found))
      (λ q s'. deref (some q) s' (λ t. ran (store (some q) (put_item p item t) s', agreed))) h.0
    ∙ deref_at q t s _ h.1

pub cancels :
    (p : Player) (q : ℕ) (t : TradeSession) (s : Sessions)
    → Trades p q t s
    → cancel (some p) s
      ≡ ran
          (record s { table = erase t.b_id (erase t.a_id s.table); heap = erase q s.heap }, agreed)
unfolding cancel delete_trade_session
cancels p q t s h =
    look_found p.id q s (λ s'. ran (s', refuse session_not_found))
      (λ q s'. elim (delete_trade_session (some q) s') [
        | fault ↦ fault
        | ran s'' ↦ ran (s'', agreed)
      ])
      h.0
    ∙ ap (λ (r : Run Sessions). elim r [ fault ↦ fault | ran s'' ↦ ran (s'', agreed) ])
        (deref_at q t s _ h.1)

pub my_items_found :
    (p : Player) (q : ℕ) (t : TradeSession) (s : Sessions)
    → Trades p q t s
    → (items : List TradeItem) × (get_my_items (some p) s ≡ ran items)
unfolding get_my_items
my_items_found p q t s h = (
  (if p.address == t.a_player then t.a_items else t.b_items),
  rw (h.0, get_my_items) (deref_at q t s _ h.1),
)

pub target_items_found :
    (p : Player) (q : ℕ) (t : TradeSession) (s : Sessions)
    → Trades p q t s
    → (items : List TradeItem) × (get_target_items (some p) s ≡ ran items)
unfolding get_target_items
target_items_found p q t s h = (
  (if p.address == t.a_player then t.b_items else t.a_items),
  rw (h.0, get_target_items) (deref_at q t s _ h.1),
)

pub deletes :
    (p : Player) (q : ℕ) (t : TradeSession) (s : Sessions)
    → Trades p q t s
    → delete_trade_session (get_trade_session (some p) s) s
      ≡ ran (record s { table = erase t.b_id (erase t.a_id s.table); heap = erase q s.heap })
unfolding get_trade_session delete_trade_session
deletes p q t s h = rw (h.0, get_trade_session) (deref_at q t s _ h.1)

pub ready_found :
    (m : Mysql) (p : Player) (q : ℕ) (t : TradeSession) (v : Service m)
    → Trades p q t v.sessions
    → ready m (some p) v ≡ ready_in m p v v.sessions q t
unfolding ready
ready_found m p q t v h =
    look_found p.id q v.sessions (λ s'. ran (record v { sessions = s' }, refuse session_not_found))
      (λ q s'. deref (some q) s' (ready_in m p v s' q)) h.0
    ∙ deref_at q t v.sessions (ready_in m p v v.sessions q) h.1

-- Without a session, `Ready` refuses.
pub ready_lost :
    (m : Mysql) (p : Player) (v : Service m)
    → (lookup p.id v.sessions.table ≡ none) ⊎ (lookup p.id v.sessions.table ≡ some none)
    → (s : Sessions) × (ready m (some p) v
        ≡ ran (record v { sessions = s }, refuse session_not_found))
unfolding ready
ready_lost m p v (inl e) = (
  record v.sessions { table = insert p.id none v.sessions.table },
  look_missing p.id v.sessions (λ s'. ran (record v { sessions = s' }, refuse session_not_found))
      (λ q s'. deref (some q) s' (ready_in m p v s' q)) e,
)
ready_lost m p v (inr e) = (
  v.sessions,
  ap
      (λ (r : Option ℕ × Sessions).
        let (found, s') = r in
        elim found [
          | none ↦ ran (record v { sessions = s' }, refuse session_not_found)
          | some q ↦ deref (some q) s' (ready_in m p v s' q)
        ])
      (at_index_found p.id v.sessions none e),
)
