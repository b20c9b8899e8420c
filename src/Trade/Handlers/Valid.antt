-- ===== src/Trade/Handlers/Valid.antt =====
-- The handlers on a valid table of trade sessions.
use ll2games_rpg.Prelude.{
  ℕ, ◌≡◌, refl, sym, subst, Bool, true, false, not, ◌||◌, Option, none, some, List, ◌⊎◌, inl, inr,
  option_cases, Option-cases, if_both,
}
use ll2games_rpg.Prelude.Int.{ℤ, pos, negsuc}
use ll2games_rpg.Prelude.Dict.{lookup}
use ll2games_rpg.Packet.{Bytes}
use ll2games_rpg.Database.{Mysql}
use ll2games_rpg.Trade.{Code, done, failed, waiting, threw, Player, TradeSession}
use ll2games_rpg.Trade.Sessions.{
  Sessions, Run, fault, ran, Reply, refuse, recipient, Service, start, cancel, ready,
}
use ll2games_rpg.Trade.Sessions.Invariant.{IsValid, delete-IsValid}
use ll2games_rpg.Trade.Sessions.Lifecycle.{
  Kept, start-IsValid, start_sends, cancel-Kept, Good, without_reply, ready-Good,
}
use ll2games_rpg.Trade.Sessions.Found.{
  Trades, my_items_found, target_items_found, deletes, ready_found, ready_lost,
}
use ll2games_rpg.Trade.Sessions.Readied.{Stays, ready_in-Stays}
use ll2games_rpg.Trade.Execute.Numbers.{AreNumbers}
use ll2games_rpg.Trade.Handlers.{
  Kind, trade_ready, trade_cancel, trade_accept, Effect, Outcome, broken, thrown, handled,
  on_session, Context, World, get_player, next_field, guarded, named, told_to, sends_all,
  with_sessions, handle_trade_accept, confirm, after_ready, handle_trade_ready, handle_trade_cancel,
}

-- The handler ends, and leaves a valid table.
abbrev pub EndsValid : {m : Mysql} → Outcome (World m × List Effect) → Type 0
EndsValid broken = ⊥
EndsValid thrown = ⊥
EndsValid (handled (w, effects)) = IsValid w.service.sessions

code_cases {ℓ} :
    {B : Type ℓ} (P : B → Type 0) (c : Code) {x y z u : B}
    → P x
    → P y
    → P z
    → (c ≡ threw → P u)
    → P (elim c [ done ↦ x | failed ↦ y | waiting ↦ z | threw ↦ u ])
code_cases P done p q r ends = p
code_cases P failed p q r ends = q
code_cases P waiting p q r ends = r
code_cases P threw p q r ends = ends refl

-- Every player of the table points to a session that exists.
abbrev pub AllOnline : {m : Mysql} → World m → Type 0
AllOnline w = (id : ℕ) (p : Player) → lookup id w.players ≡ some p → w.online p.id ≡ true

-- The ids of all items that have been uploaded are numbers for `std::stoi`.
abbrev pub UploadedNumbers : Sessions → Type 0
UploadedNumbers s =
    (q : ℕ) (t : TradeSession)
    → lookup q s.heap ≡ some t
    → AreNumbers t.a_items × AreNumbers t.b_items

get_player-online :
    {m : Mysql} (n : ℤ) (target : Player) (w : World m)
    → AllOnline w
    → get_player n w.players ≡ some target
    → w.online target.id ≡ true
unfolding get_player
get_player-online (pos id) target w all found = all id target found
get_player-online (negsuc n) target w all found = cc

module _ {m : Mysql} where
  told_to-EndsValid :
      (w : World m) (id : ℕ) (k : Outcome (World m × List Effect))
      → w.online id ≡ true
      → EndsValid k
      → EndsValid (told_to m w id k)
  unfolding told_to
  told_to-EndsValid w id k there h = rw (there, told_to) h

  -- A start sends to its two players only.
  start-sends :
      (requester p : Player) (w : World m) (k : Outcome (World m × List Effect))
      → w.online requester.id ≡ true
      → w.online p.id ≡ true
      → EndsValid k
      → EndsValid (sends_all m w (start (some requester) (some p) w.service.sessions).1.sent k)
  unfolding sends_all recipient
  start-sends requester p w k there here h =
      start_sends (λ packets. EndsValid (sends_all m w packets k)) requester p w.service.sessions h
        (told_to-EndsValid w requester.id _ there (told_to-EndsValid w p.id k here h))

  guarded-EndsValid :
      (b : Bool) (c : Context) (found : Option Player) (kind : Kind) (w : World m)
      (k : Player → Outcome (World m × List Effect))
      → IsValid w.service.sessions
      → ((p : Player) → found ≡ some p → EndsValid (k p))
      → EndsValid (guarded m b (record c { caller = on_session found }) kind w k)
  unfolding guarded
  guarded-EndsValid b c found kind w k v h =
      option_cases EndsValid found (λ _. v)
        (λ p is. if_both EndsValid (not c.has_player_manager) v (
          if_both EndsValid (not (not b || c.has_player_service)) v
            (if_both EndsValid (not c.has_trade_service) v (h p is))))

  named-EndsValid :
      (c : Context) (kind : Kind) (w : World m) (find : Bytes → Option Player)
      (k : Player → Outcome (World m × List Effect))
      → IsValid w.service.sessions
      → ((text : Bytes) (target : Player) → find text ≡ some target → EndsValid (k target))
      → EndsValid (named m c kind w find k)
  unfolding named
  named-EndsValid c kind w find k v h =
      option_cases EndsValid (next_field c.payload 0) (λ _. v)
        (λ f _. option_cases EndsValid (find f.0) (λ _. v) (λ target is. h f.0 target is))

  confirm-EndsValid :
      (atoi : Bytes → ℤ) (p target : Player) (q : ℕ) (t : TradeSession) (w : World m)
      → IsValid w.service.sessions
      → Trades p q t w.service.sessions
      → w.online target.id ≡ true
      → EndsValid (confirm m atoi p target w)
  unfolding confirm with_sessions
  confirm-EndsValid atoi p target q t w v h there =
      rw ((my_items_found p q t w.service.sessions h).1, confirm)
        (rw ((target_items_found p q t w.service.sessions h).1, confirm)
          (rw (deletes p q t w.service.sessions h, confirm)
            (told_to-EndsValid w target.id _ there (delete-IsValid q t w.service.sessions h.1 v))))

  -- What a cancellation leaves, whatever it replies.
  kept :
      (w : World m) (id : ℕ) (r : Run (Sessions × Reply)) (k l : Sessions → List Effect)
      → w.online id ≡ true
      → Kept r
      → EndsValid (elim r [
        | fault ↦ broken
        | ran (s, reply) ↦ elim reply.code [
          | done ↦ told_to m w id (handled (with_sessions m w s, k s))
          | _ ↦ handled (with_sessions m w s, l s)
        ]
      ])
  unfolding with_sessions
  kept w id fault k l there h = h
  kept w id (ran (s, reply)) k l there h =
      code_cases EndsValid reply.code (told_to-EndsValid w id _ there h) h h (λ _. h)

  after_ready-EndsValid :
      (atoi : Bytes → ℤ) (p target : Player) (q : ℕ) (w : World m) (r : Run (Service m × Reply))
      → w.online target.id ≡ true
      → Stays p q r
      → EndsValid (after_ready m atoi p target w r)
  unfolding after_ready
  after_ready-EndsValid atoi p target q w r there (v, reply, t, e, ends, valid, trades) =
      subst (λ x. EndsValid (after_ready m atoi p target w x)) (sym e)
        (code_cases EndsValid reply.code
          (confirm-EndsValid atoi p target q t (record w { service = v }) valid trades there) valid
          (told_to-EndsValid (record w { service = v }) target.id _ there valid)
          (λ threw. absurd (ends threw)))

  ready-EndsValid :
      (atoi : Bytes → ℤ) (p target : Player) (w : World m)
      → IsValid w.service.sessions
      → UploadedNumbers w.service.sessions
      → w.online target.id ≡ true
      → EndsValid (after_ready m atoi p target w (ready m (some p) w.service))
  unfolding after_ready refuse without_reply
  ready-EndsValid atoi p target w v numbers there =
      elim (Option-cases (lookup p.id w.service.sessions.table)) [
        | inl e ↦ lost (inl e)
        | inr (none, e) ↦ lost (inr e)
        | inr (some q, e) ↦
            let (t, at, owner) = v.points p.id q e in
            after_ready-EndsValid atoi p target q w (ready m (some p) w.service) there (
              subst (Stays p q) (sym (ready_found m p q t w.service (e, at)))
                (ready_in-Stays m p q t w.service v (e, at) (numbers q t at).0 (numbers q t at).1))
      ]
    where
      lost :
          (lookup p.id w.service.sessions.table ≡ none)
            ⊎ (lookup p.id w.service.sessions.table ≡ some none)
          → EndsValid (after_ready m atoi p target w (ready m (some p) w.service))
      lost h =
          let found = ready_lost m p w.service h in
          subst (λ x. EndsValid (after_ready m atoi p target w x)) (sym found.1)
            (subst (λ x. Good (without_reply x)) found.1 (ready-Good m (some p) w.service v))

  -- A handler of the trade packets, for the packet of some session in a world whose table is valid, ends
  -- without an exception and without a read through a null or a dangling pointer, and leaves a valid
  -- table: for the packets that accept a trade, that say ready and that cancel, whatever their payload,
  -- whichever player they name and whether the session has a player or not. The conditions are that the
  -- session's player and all players of the game's table point to sessions that exist, and that the
  -- ids of all items uploaded so far are numbers for `std::stoi`.
  pub handlers-EndsValid :
      (atoi : Bytes → ℤ) (found : Option Player) (c : Context) (w : World m)
      → IsValid w.service.sessions
      → UploadedNumbers w.service.sessions
      → AllOnline w
      → ((p : Player) → found ≡ some p → w.online p.id ≡ true)
      → EndsValid (handle_trade_accept m atoi (record c { caller = on_session found }) w)
        × EndsValid (handle_trade_ready m atoi (record c { caller = on_session found }) w)
        × EndsValid (handle_trade_cancel m atoi (record c { caller = on_session found }) w)
  unfolding handle_trade_accept handle_trade_ready handle_trade_cancel with_sessions
  handlers-EndsValid atoi found c w v numbers all here =
      let players = λ (text : Bytes). get_player (atoi text) w.players in
      let online = λ (text : Bytes) (target : Player) (is : players text ≡ some target).
        get_player-online (atoi text) target w all is in
      (
        guarded-EndsValid false c found trade_accept w _ v (λ p is.
            named-EndsValid (record c { caller = on_session found }) trade_accept w players _ v
              (λ text requester named.
                let valid = start-IsValid (some requester) (some p) w.service.sessions v in
                code_cases EndsValid (start (some requester) (some p) w.service.sessions).1.code
                  (start-sends requester p w _ (online text requester named) (here p is) valid)
                  valid valid (λ _. valid))),
        guarded-EndsValid true c found trade_ready w _ v (λ p is.
            named-EndsValid (record c { caller = on_session found }) trade_ready w players _ v
              (λ text target named.
                ready-EndsValid atoi p target w v numbers (online text target named))),
        guarded-EndsValid false c found trade_cancel w _ v (λ p is.
            named-EndsValid (record c { caller = on_session found }) trade_cancel w players _ v
              (λ text target named.
                kept w target.id (cancel (some p) w.service.sessions) _ _ (online text target named)
                  (cancel-Kept (some p) w.service.sessions v))),
      )
