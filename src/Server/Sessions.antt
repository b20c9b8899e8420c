-- ===== src/Server/Sessions.antt =====
-- The sessions, the descriptors that are open and watched, and the count of the users.
use ll2games_rpg.Prelude.{
  ℕ, ◌%◌, ◌^◌, ◌≡◌, refl, sym, ap, subst, ◌∙◌, Bool, true, false, not, ◌&&◌, Option, none, some,
  List, [], ◌∷◌, ◌==◌, if◌then◌else◌, arith, option_cases, ◌≢◌, ==_iff, if_both, if_cases, length,
}
use ll2games_rpg.Prelude.Dict.{
  Dict, lookup, insert, erase, lookup-insert, lookup-erase, Distinct, insert-Distinct,
  erase-Distinct, length-insert_new, length-insert_old, length-erase,
}
use ll2games_rpg.Packet.{Bytes, ParsedPacket}
use ll2games_rpg.Session.{SendResult, on_bytes, enqueue_send, flush_send}
use ll2games_rpg.Session.Send.{flush_send-empty}
use ll2games_rpg.Server.{
  Client, Watch, unwatched, reads, reads_writes, Server, add_player, epoll_mod, send_to,
  handle_channel_auth, on_disconnect, empty_client, Incoming, accept_one, on_accept, Action, sends,
  logs_in, act, act_all, Recv, closed, failed, got, Ready, Event, incoming, ready, AreFresh, Sound,
  Reached, here, next, dispatch_all, on_receive, has_pending_send, on_send, on_ready, on_event,
  is_session,
}

-- A session has its descriptor open and watched for input, and for output too while something is
-- waiting to be sent; no descriptor is left open without its session.
abbrev pub Fits : Option Client → Option Watch → Type 0
Fits none none = Unit
Fits none (some w) = ⊥
Fits (some c) none = ⊥
Fits (some c) (some unwatched) = ⊥
Fits (some c) (some reads) = c.sender.send_queue ≡ []
Fits (some c) (some reads_writes) = Unit

abbrev pub Agree : Dict Client → Dict Watch → Type 0
Agree sessions watches = (fd : ℕ) → Fits (lookup fd sessions) (lookup fd watches)

pub Fits-if :
    (b : Bool) (c d : Option Client) (w x : Option Watch)
    → Fits c w
    → Fits d x
    → Fits (if b then c else d) (if b then w else x)
Fits-if true c d w x f g = f
Fits-if false c d w x f g = g

Agree-insert :
    (fd : ℕ) (c : Client) (w : Watch) (sessions : Dict Client) (watches : Dict Watch)
    → Fits (some c) (some w)
    → Agree sessions watches
    → Agree (insert fd c sessions) (insert fd w watches)
Agree-insert fd c w sessions watches f a j =
    rw (lookup-insert fd j c sessions, lookup-insert fd j w watches)
      (Fits-if (j == fd) (some c) _ (some w) _ f (a j))

Agree-keep :
    (fd : ℕ) (c : Client) (sessions : Dict Client) (watches : Dict Watch)
    → Fits (some c) (lookup fd watches)
    → Agree sessions watches
    → Agree (insert fd c sessions) watches
Agree-keep fd c sessions watches f a j = rw (lookup-insert fd j c sessions) (
    if_cases (λ found. Fits found (lookup j watches)) (j == fd)
      (λ same.
        let is : j ≡ fd = ground arith in subst (λ k. Fits (some c) (lookup k watches)) (sym is) f)
      (λ other. a j))

Agree-erase :
    (fd : ℕ) (sessions : Dict Client) (watches : Dict Watch)
    → Agree sessions watches
    → Agree (erase fd sessions) (erase fd watches)
Agree-erase fd sessions watches a j =
    rw (lookup-erase fd j sessions, lookup-erase fd j watches)
      (Fits-if (j == fd) none _ none _ tt (a j))

-- What holds between any two events.
pub record IsServed (s : Server) : Type 0 where
  pub distinct : Distinct s.sessions
  pub agree : Agree s.sessions s.watches
  pub counted : s.current_user_count ≡ length s.sessions % 2 ^ 32

put_session :
    (fd : ℕ) (old new : Client) (s : Server)
    → lookup fd s.sessions ≡ some old
    → Fits (some new) (lookup fd s.watches)
    → IsServed s
    → IsServed (record s { sessions = insert fd new s.sessions })
put_session fd old new s e f v = record {
  distinct = insert-Distinct fd new s.sessions v.distinct;
  agree = Agree-keep fd new s.sessions s.watches f v.agree;
  counted = v.counted ∙ ap (λ n. n % 2 ^ 32) (sym (length-insert_old fd new old s.sessions e));
}

on_disconnect-IsServed : (fd : ℕ) (s : Server) → IsServed s → IsServed (on_disconnect fd s)
unfolding on_disconnect
on_disconnect-IsServed fd s v =
    option_cases IsServed (lookup fd s.sessions) (λ gone. v)
      (λ c e. record {
        distinct = erase-Distinct fd s.sessions v.distinct;
        agree = Agree-erase fd s.sessions s.watches v.agree;
        counted =
            let fewer = length-erase fd c s.sessions v.distinct e in
            let counted = v.counted in omega arith;
      })

Fits-none : (c : Option Client) → Fits c none → c ≡ none
Fits-none none f = refl
Fits-none (some c) f = absurd f

Fits-same :
    (c new : Client) (w : Option Watch)
    → new.sender.send_queue ≡ c.sender.send_queue
    → Fits (some c) w
    → Fits (some new) w
Fits-same c new none e f = f
Fits-same c new (some unwatched) e f = f
Fits-same c new (some reads) e f = e ∙ f
Fits-same c new (some reads_writes) e f = f

Fits-flushed :
    (answers : List SendResult) (c : Client) (w : Option Watch)
    → Fits (some c) w
    → Fits (some (record c { sender = (flush_send answers c.sender).0 })) w
Fits-flushed answers c none f = f
Fits-flushed answers c (some unwatched) f = f
Fits-flushed answers c (some reads) f = flush_send-empty answers c.sender f
Fits-flushed answers c (some reads_writes) f = f

-- The session of a descriptor fits what is watched there.
fitting :
    (fd : ℕ) (c : Client) (s : Server)
    → lookup fd s.sessions ≡ some c
    → IsServed s
    → Fits (some c) (lookup fd s.watches)
fitting fd c s e v = subst (λ found. Fits found (lookup fd s.watches)) e (v.agree fd)

accept_one-IsServed :
    (i : Incoming) (s : Server)
    → lookup i.cfd s.watches ≡ none
    → IsServed s
    → IsServed (accept_one i s)
unfolding accept_one empty_client
accept_one-IsServed i s fresh v = if_both IsServed (not i.nonblocking) v (
    if_both IsServed (not i.nodelay)
      (record { distinct = v.distinct; agree = v.agree; counted = v.counted })
      (if_both IsServed (not i.added) v (record {
        distinct = insert-Distinct i.cfd empty_client s.sessions v.distinct;
        agree = Agree-insert i.cfd empty_client reads s.sessions s.watches refl v.agree;
        counted =
            let free =
              Fits-none (lookup i.cfd s.sessions)
                (subst (Fits (lookup i.cfd s.sessions)) fresh (v.agree i.cfd)) in
            let more = length-insert_new i.cfd empty_client s.sessions free in
            let counted = v.counted in omega arith;
      })))

on_accept-IsServed :
    (is : List Incoming) (s : Server) → AreFresh is s → IsServed s → IsServed (on_accept is s)
unfolding on_accept
on_accept-IsServed [] s fresh v = v
on_accept-IsServed (i ∷ is) s fresh v =
    option_cases IsServed s.listen_fd (λ shut. v)
      (λ fd e. on_accept-IsServed is (accept_one i s) fresh.1 (accept_one-IsServed i s fresh.0 v))

handle_channel_auth-IsServed :
    (fd : ℕ) (loaded : Option ℕ) (s : Server)
    → IsServed s
    → IsServed (handle_channel_auth fd loaded s)
unfolding handle_channel_auth
handle_channel_auth-IsServed fd none s v = v
handle_channel_auth-IsServed fd (some id) s v =
    option_cases IsServed (lookup fd s.sessions) (λ gone. v)
      (λ c e. if_both IsServed (not (add_player id fd s.players).1) v (
        let put =
          put_session fd c (record c { player = some id; has_manager = true }) s e
            (Fits-same c (record c { player = some id; has_manager = true }) (lookup fd s.watches)
              refl (fitting fd c s e v))
            v in
        record { distinct = put.distinct; agree = put.agree; counted = put.counted }))

nothing_pending :
    (queue : List Bytes)
    → not (elim queue [ [] ↦ false | packet ∷ rest ↦ true ]) ≡ true
    → queue ≡ []
nothing_pending [] h = refl
nothing_pending (packet ∷ rest) h = cc

module _ (mods : ℕ → Bool) (mods_succeed : (fd : ℕ) → mods fd ≡ true) where
  epoll_mod-IsServed :
      (fd : ℕ) (c : Client) (w : Watch) (s : Server)
      → lookup fd s.sessions ≡ some c
      → Fits (some c) (some w)
      → Distinct s.sessions
      → ((j : ℕ) → j ≢ fd → Fits (lookup j s.sessions) (lookup j s.watches))
      → s.current_user_count ≡ length s.sessions % 2 ^ 32
      → IsServed (epoll_mod (mods fd) fd w s)
  unfolding epoll_mod
  epoll_mod-IsServed fd c w s e f d a n = rw (mods_succeed fd) (record {
    distinct = d;
    agree = λ j. rw (lookup-insert fd j w s.watches) (
        if_cases (λ found. Fits (lookup j s.sessions) found) (j == fd)
          (λ same.
            let is : j ≡ fd = ground arith in
            subst (λ k. Fits (lookup k s.sessions) (some w)) (sym is)
              (subst (λ found. Fits found (some w)) (sym e) f))
          (λ other. a j (λ is. ground arith)));
    counted = n;
  })

  -- A session put in place of its own, with its descriptor watched as it needs.
  rewatched :
      (fd : ℕ) (old new : Client) (w : Watch) (s : Server)
      → lookup fd s.sessions ≡ some old
      → Fits (some new) (some w)
      → IsServed s
      → IsServed (epoll_mod (mods fd) fd w (record s { sessions = insert fd new s.sessions }))
  rewatched fd old new w s e f v =
      epoll_mod-IsServed fd new w (record s { sessions = insert fd new s.sessions })
        (ground (arith, lookup-insert fd fd new s.sessions)) f
        (insert-Distinct fd new s.sessions v.distinct)
        (λ j other. rw (lookup-insert fd j new s.sessions) (
          if_cases (λ found. Fits found (lookup j s.watches)) (j == fd)
            (λ same. absurd (other ((==_iff j fd).0 same))) (λ _. v.agree j)))
        (v.counted ∙ ap (λ n. n % 2 ^ 32) (sym (length-insert_old fd new old s.sessions e)))

  send_to-IsServed :
      (fd : ℕ) (packet : Bytes) (s : Server) → IsServed s → IsServed (send_to mods fd packet s)
  unfolding send_to
  send_to-IsServed fd packet s v =
      option_cases IsServed (lookup fd s.sessions) (λ gone. v)
        (λ c e. if_both IsServed (not (enqueue_send packet c.sender).1) v (
          rewatched fd c (record c { sender = (enqueue_send packet c.sender).0 }) reads_writes s e
            tt v))

  act_all-IsServed :
      (fd : ℕ) (actions : List Action) (s : Server)
      → IsServed s
      → IsServed (act_all mods fd actions s)
  unfolding act_all act
  act_all-IsServed fd [] s v = v
  act_all-IsServed fd (sends to packet ∷ actions) s v =
      act_all-IsServed fd actions _ (send_to-IsServed to packet s v)
  act_all-IsServed fd (logs_in loaded ∷ actions) s v =
      act_all-IsServed fd actions _ (handle_channel_auth-IsServed fd loaded s v)

  module _ (handler : ℕ → ParsedPacket → Server → List Action) where
    dispatch_all-IsServed :
        (fd : ℕ) (packets : List ParsedPacket) (s : Server)
        → IsServed s
        → IsServed (dispatch_all mods handler fd packets s)
    unfolding dispatch_all
    dispatch_all-IsServed fd [] s v = v
    dispatch_all-IsServed fd (p ∷ packets) s v =
        dispatch_all-IsServed fd packets _ (act_all-IsServed fd (handler fd p s) s v)

    on_receive-IsServed :
        (fd : ℕ) (recv : Recv) (s : Server)
        → IsServed s
        → IsServed (on_receive mods handler fd recv s)
    unfolding on_receive
    on_receive-IsServed fd closed s v = on_disconnect-IsServed fd s v
    on_receive-IsServed fd failed s v = on_disconnect-IsServed fd s v
    on_receive-IsServed fd (got bytes) s v =
        option_cases IsServed (lookup fd s.sessions) (λ gone. v)
          (λ c e.
            let r = on_bytes bytes c.recv_buf in
            let kept =
              put_session fd c (record c { recv_buf = r.recv_buf }) s e
                (Fits-same c (record c { recv_buf = r.recv_buf }) (lookup fd s.watches) refl
                  (fitting fd c s e v))
                v in
            let after = dispatch_all-IsServed fd r.packets _ kept in
            if_both IsServed r.ok after (on_disconnect-IsServed fd _ after))

    on_send-IsServed :
        (fd : ℕ) (answers : List SendResult) (s : Server)
        → IsServed s
        → IsServed (on_send mods fd answers s)
    unfolding on_send has_pending_send
    on_send-IsServed fd answers s v =
        option_cases IsServed (lookup fd s.sessions) (λ gone. v)
          (λ c e.
            let new = record c { sender = (flush_send answers c.sender).0 } in
            let put =
              put_session fd c new s e
                (Fits-flushed answers c (lookup fd s.watches) (fitting fd c s e v)) v in
            if_both IsServed (not (flush_send answers c.sender).1) (on_disconnect-IsServed fd _ put)
              (if_cases IsServed (not (has_pending_send new.sender))
                (λ none_left.
                  rewatched fd c new reads s e (nothing_pending new.sender.send_queue none_left) v)
                (λ some_left. put)))

    on_ready-IsServed : (r : Ready) (s : Server) → IsServed s → IsServed (on_ready mods handler r s)
    unfolding on_ready
    on_ready-IsServed r s v =
        let s' = if_both IsServed r.input (on_receive-IsServed r.fd r.recv s v) v in
        if_both IsServed r.hangup (on_disconnect-IsServed r.fd s v) (
          if_both IsServed (is_session r.fd _ && r.output) (on_send-IsServed r.fd r.answers _ s')
            s')

    pub on_event-IsServed :
        (e : Event) (s : Server) → Sound e s → IsServed s → IsServed (on_event mods handler e s)
    unfolding on_event
    on_event-IsServed (incoming is) s fresh v = on_accept-IsServed is s fresh v
    on_event-IsServed (ready r) s fresh v = on_ready-IsServed r s v

    -- Where `accept` gives only descriptors that are not open and EPOLL_CTL_MOD succeeds: from a state in
    -- which it holds, whatever events follow and whatever the handlers do, each session has its descriptor
    -- open and watched for input, and for output too while something waits to be sent; no other
    -- descriptor of a client is open; and the count of the users is the number of sessions, modulo 2^32.
    pub Reached-IsServed :
        {start s : Server} → IsServed start → Reached mods handler start s → IsServed s
    Reached-IsServed v here = v
    Reached-IsServed v (next e before sound) =
        on_event-IsServed e _ sound (Reached-IsServed v before)
