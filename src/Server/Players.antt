-- ===== src/Server/Players.antt =====
-- The players that the sessions have, and the table of PlayerManager.
use ll2games_rpg.Prelude.{
  ℕ, ◌≡◌, ◌≢◌, refl, sym, ap, subst, ◌∙◌, Bool, true, Option, none, some, List, ◌==◌, ==_iff, inl,
  inr, arith, Bool-cases, option_cases, if_both,
}
use ll2games_rpg.Prelude.Dict.{
  Dict, lookup, insert, erase, insert_cases, insert_other, insert_self, erase_found, erase_other,
}
use ll2games_rpg.Packet.{ParsedPacket}
use ll2games_rpg.Server.{
  Client, Server, add_player, remove_player, handle_channel_auth, leave, empty_client, Action,
  Reached,
}
use ll2games_rpg.Server.Events.{Reached-Holds}

-- Each session's player is in the table, under this session, and will be taken out with it.
abbrev pub Owned : Dict Client → Dict ℕ → Type 0
Owned ss ps =
    (fd : ℕ) (c : Client) (id : ℕ)
    → lookup fd ss ≡ some c
    → c.player ≡ some id
    → (lookup id ps ≡ some fd) × (c.has_manager ≡ true)

some_inj : {a b : ℕ} → ◌≡◌ {A = Option ℕ} (some a) (some b) → a ≡ b
some_inj e = ground arith

put-Owned :
    (fd : ℕ) (old new : Client) (ss : Dict Client) (ps : Dict ℕ)
    → lookup fd ss ≡ some old
    → new.player ≡ old.player
    → new.has_manager ≡ old.has_manager
    → Owned ss ps
    → Owned (insert fd new ss) ps
put-Owned fd old new ss ps e p m h j c id found is = elim (insert_cases fd j new c ss found) [
  | inl (same, put) ↦
      let before = h fd old id e (sym p ∙ ap (λ (x : Client). x.player) put ∙ is) in
      (before.0 ∙ ap some (sym same), ap (λ (x : Client). x.has_manager) (sym put) ∙ m ∙ before.1)
  | inr (other, was) ↦ h j c id was is
]

none_ne_some : (n : ℕ) → ◌≡◌ {A = Option ℕ} none (some n) → ⊥
none_ne_some n e = cc

join-Owned :
    (fd : ℕ) (ss : Dict Client) (ps : Dict ℕ) → Owned ss ps → Owned (insert fd empty_client ss) ps
unfolding empty_client
join-Owned fd ss ps h j c id found is = elim (insert_cases fd j empty_client c ss found) [
  | inl (same, put) ↦ absurd (none_ne_some id (ap (λ (x : Client). x.player) put ∙ is))
  | inr (other, was) ↦ h j c id was is
]

insert_free :
    (id k j fd : ℕ) (ps : Dict ℕ)
    → lookup id ps ≡ none
    → lookup k ps ≡ some j
    → lookup k (insert id fd ps) ≡ some j
insert_free id k j fd ps free found = elim (Bool-cases (k == id)) [
  | inl same ↦ absurd (cc (subst (λ n. lookup n ps ≡ some j) ((==_iff k id).0 same) found, free))
  | inr other ↦ insert_other id k fd ps other ∙ found
]

login-Owned :
    (fd id : ℕ) (c : Client) (ss : Dict Client) (ps : Dict ℕ)
    → lookup fd ss ≡ some c
    → lookup id ps ≡ none
    → Owned ss ps
    → Owned (insert fd (record c { player = some id; has_manager = true }) ss) (insert id fd ps)
login-Owned fd id c ss ps e free h j d k found is =
    elim (insert_cases fd j (record c { player = some id; has_manager = true }) d ss found) [
      | inl (same, put) ↦
          let key : id ≡ k = some_inj (ap (λ (x : Client). x.player) put ∙ is) in
          (
            subst (λ n. lookup n (insert id fd ps) ≡ some j) key
                (insert_self id fd ps ∙ ap some (sym same)),
            ap (λ (x : Client). x.has_manager) (sym put),
          )
      | inr (other, was) ↦
          let before = h j d k was is in (insert_free id k j fd ps free before.0, before.1)
    ]

-- A player stays in the table when the session of another one ends.
leave_other :
    (c : Client) (k j : ℕ) (ps : Dict ℕ)
    → c.player ≢ some k
    → lookup k ps ≡ some j
    → lookup k (leave c ps) ≡ some j
unfolding leave remove_player
leave_other c k j ps other found =
    option_cases (λ r. lookup k r ≡ some j) c.player (λ nobody. found)
      (λ id is.
        if_both (λ r. lookup k r ≡ some j) c.has_manager
          (option_cases (λ (r : Dict ℕ × Bool). lookup k r.0 ≡ some j) (lookup id ps)
            (λ gone. found)
            (λ old there. elim (Bool-cases (k == id)) [
              | inl same ↦ absurd (other (is ∙ ap some (sym ((==_iff k id).0 same))))
              | inr differs ↦ erase_other id k ps differs ∙ found
            ]))
          found)

quit-Owned :
    (fd : ℕ) (c : Client) (ss : Dict Client) (ps : Dict ℕ)
    → lookup fd ss ≡ some c
    → Owned ss ps
    → Owned (erase fd ss) (leave c ps)
quit-Owned fd c ss ps e h j d k found is =
    let was = erase_found fd j d ss found in
    let before = h j d k was.1 is in
    (
      leave_other c k j ps
          (λ mine.
            let same : j ≡ fd = some_inj (sym before.0 ∙ (h fd c k e mine).0) in
            cc (sym was.0 ∙ (==_iff j fd).1 same))
          before.0,
      before.1,
    )

-- The events that follow keep what each session's player has in the table.
Reached-Owned :
    (mods : ℕ → Bool) (handler : ℕ → ParsedPacket → Server → List Action) {start s : Server}
    → Owned start.sessions start.players
    → Reached mods handler start s
    → Owned s.sessions s.players
Reached-Owned mods handler h r =
    Reached-Holds Owned put-Owned join-Owned login-Owned quit-Owned mods handler h r

-- From a state in which the player of every session is in the table under that session, whatever events
-- follow and whatever the handlers do: two sessions that have the same player are the same session, and
-- the table knows that player under it.
pub one_session :
    (mods : ℕ → Bool) (handler : ℕ → ParsedPacket → Server → List Action) {start s : Server}
    → Owned start.sessions start.players
    → Reached mods handler start s
    → (fd gd : ℕ) (c d : Client) (id : ℕ) → lookup fd s.sessions ≡ some c
    → lookup gd s.sessions ≡ some d
    → c.player ≡ some id
    → d.player ≡ some id
    → (fd ≡ gd) × (lookup id s.players ≡ some fd)
one_session mods handler h r fd gd c d id e f p q =
    let owned = Reached-Owned mods handler h r in
    let first = (owned fd c id e p).0 in (some_inj (sym first ∙ (owned gd d id f q).0), first)

-- A player in the table whom no session has.
abbrev Orphan : ℕ → Dict Client → Dict ℕ → Type 0
Orphan id ss ps =
    ((old : ℕ) × (lookup id ps ≡ some old))
    × ((fd : ℕ) (c : Client) → lookup fd ss ≡ some c → c.player ≢ some id)

put-Orphan :
    (id fd : ℕ) (old new : Client) (ss : Dict Client) (ps : Dict ℕ)
    → lookup fd ss ≡ some old
    → new.player ≡ old.player
    → new.has_manager ≡ old.has_manager
    → Orphan id ss ps
    → Orphan id (insert fd new ss) ps
put-Orphan id fd old new ss ps e p m h = (
  h.0,
  λ j c found is. elim (insert_cases fd j new c ss found) [
    | inl (same, put) ↦ h.1 fd old e (sym p ∙ ap (λ (x : Client). x.player) put ∙ is)
    | inr (other, was) ↦ h.1 j c was is
  ],
)

join-Orphan :
    (id fd : ℕ) (ss : Dict Client) (ps : Dict ℕ)
    → Orphan id ss ps
    → Orphan id (insert fd empty_client ss) ps
unfolding empty_client
join-Orphan id fd ss ps h = (
  h.0,
  λ j c found is. elim (insert_cases fd j empty_client c ss found) [
    | inl (same, put) ↦ none_ne_some id (ap (λ (x : Client). x.player) put ∙ is)
    | inr (other, was) ↦ h.1 j c was is
  ],
)

login-Orphan :
    (id fd new : ℕ) (c : Client) (ss : Dict Client) (ps : Dict ℕ)
    → lookup fd ss ≡ some c
    → lookup new ps ≡ none
    → Orphan id ss ps
    → Orphan id
        (insert fd (record c { player = some new; has_manager = true }) ss)
        (insert new fd ps)
login-Orphan id fd new c ss ps e free h = (
  (h.0.0, insert_free new id h.0.0 fd ps free h.0.1),
  λ j d found is.
      elim (insert_cases fd j (record c { player = some new; has_manager = true }) d ss found) [
        | inl (same, put) ↦
            let key : new ≡ id = some_inj (ap (λ (x : Client). x.player) put ∙ is) in
            cc (sym free ∙ ap (λ n. lookup n ps) key ∙ h.0.1)
        | inr (other, was) ↦ h.1 j d was is
      ],
)

quit-Orphan :
    (id fd : ℕ) (c : Client) (ss : Dict Client) (ps : Dict ℕ)
    → lookup fd ss ≡ some c
    → Orphan id ss ps
    → Orphan id (erase fd ss) (leave c ps)
quit-Orphan id fd c ss ps e h = (
  (h.0.0, leave_other c id h.0.0 ps (h.1 fd c e) h.0.1),
  λ j d found is. h.1 j d (erase_found fd j d ss found).1 is,
)

second_login-Orphan :
    (fd first second : ℕ) (c : Client) (s : Server)
    → Owned s.sessions s.players
    → lookup fd s.sessions ≡ some c
    → c.player ≡ some first
    → lookup second s.players ≡ none
    → Orphan first
        (handle_channel_auth fd (some second) s).sessions
        (handle_channel_auth fd (some second) s).players
unfolding handle_channel_auth add_player
second_login-Orphan fd first second c s owned e is free =
    let there = (owned fd c first e is).0 in
    rw (e, handle_channel_auth)
      (rw (free, add_player)
        (
          (fd, insert_free second first fd fd s.players free there),
          λ j d found mine.
              elim (insert_cases fd j (record c { player = some second; has_manager = true }) d
                s.sessions found) [
                  | inl (same, put) ↦
                      let key : second ≡ first =
                        some_inj (ap (λ (x : Client). x.player) put ∙ mine) in
                      cc (sym free ∙ ap (λ n. lookup n s.players) key ∙ there)
                  | inr (other, was) ↦
                      let same : j ≡ fd = some_inj (sym (owned j d first was mine).0 ∙ there) in
                      cc (sym other ∙ (==_iff j fd).1 same)
                ],
        ))

auth_refused :
    (gd id old : ℕ) (s : Server)
    → lookup id s.players ≡ some old
    → handle_channel_auth gd (some id) s ≡ s
unfolding handle_channel_auth add_player
auth_refused gd id old s there =
    option_cases (λ t. t ≡ s) (lookup gd s.sessions) (λ gone. refl)
      (λ c e. rw (there, add_player) refl)

-- A client that has logged in as one player and logs in as a second one locks the first player out:
-- whatever events follow, the end of that connection among them, and whatever the handlers do, no session
-- can log in as the first player, because the table keeps it for good.
pub second_login_locks_out :
    (mods : ℕ → Bool) (handler : ℕ → ParsedPacket → Server → List Action) (fd first second : ℕ)
    (c : Client) (s later : Server)
    → Owned s.sessions s.players
    → lookup fd s.sessions ≡ some c
    → c.player ≡ some first
    → lookup second s.players ≡ none
    → Reached mods handler (handle_channel_auth fd (some second) s) later
    → (gd : ℕ) → handle_channel_auth gd (some first) later ≡ later
second_login_locks_out mods handler fd first second c s later owned e is free r gd =
    let kept =
      Reached-Holds (Orphan first) (put-Orphan first) (join-Orphan first) (login-Orphan first)
        (λ f d ss ps at h. quit-Orphan first f d ss ps at h) mods handler
        (second_login-Orphan fd first second c s owned e is free) r in
    auth_refused gd first kept.0.0 later kept.0.1
