-- ===== src/Server/Events.antt =====
-- Induction over what an event can do to the sessions and to the table of the players.
use ll2games_rpg.Prelude.{
  ℕ, ◌≡◌, refl, Bool, true, not, ◌&&◌, Option, none, some, List, [], ◌∷◌, if◌then◌else◌,
  option_cases, if_both,
}
use ll2games_rpg.Prelude.Dict.{Dict, lookup, insert, erase}
use ll2games_rpg.Packet.{ParsedPacket}
use ll2games_rpg.Session.{SendResult, on_bytes, enqueue_send, flush_send}
use ll2games_rpg.Server.{
  Client, Watch, reads, reads_writes, Server, add_player, epoll_mod, send_to, handle_channel_auth,
  leave, on_disconnect, empty_client, Incoming, accept_one, on_accept, Action, sends, logs_in, act,
  act_all, Recv, closed, failed, got, Event, incoming, ready, Reached, here, next, dispatch_all,
  on_receive, has_pending_send, on_send, is_session, on_ready, on_event,
}

-- A property of the sessions and the players that the four changes to them keep is kept by every event.
module _ (P : Dict Client → Dict ℕ → Type 0)
    (put : (fd : ℕ) (old new : Client) (ss : Dict Client) (ps : Dict ℕ)
      → lookup fd ss ≡ some old
      → new.player ≡ old.player
      → new.has_manager ≡ old.has_manager
      → P ss ps
      → P (insert fd new ss) ps)
    (join : (fd : ℕ) (ss : Dict Client) (ps : Dict ℕ) → P ss ps → P (insert fd empty_client ss) ps)
    (login : (fd id : ℕ) (c : Client) (ss : Dict Client) (ps : Dict ℕ)
      → lookup fd ss ≡ some c
      → lookup id ps ≡ none
      → P ss ps
      → P (insert fd (record c { player = some id; has_manager = true }) ss) (insert id fd ps))
    (quit : (fd : ℕ) (c : Client) (ss : Dict Client) (ps : Dict ℕ)
      → lookup fd ss ≡ some c
      → P ss ps
      → P (erase fd ss) (leave c ps)) where
  abbrev Holds : Server → Type 0
  Holds s = P s.sessions s.players

  on_disconnect-Holds : (fd : ℕ) (s : Server) → Holds s → Holds (on_disconnect fd s)
  unfolding on_disconnect
  on_disconnect-Holds fd s h =
      option_cases Holds (lookup fd s.sessions) (λ gone. h)
        (λ c e. quit fd c s.sessions s.players e h)

  accept_one-Holds : (i : Incoming) (s : Server) → Holds s → Holds (accept_one i s)
  unfolding accept_one
  accept_one-Holds i s h = if_both Holds (not i.nonblocking) h (
      if_both Holds (not i.nodelay) h
        (if_both Holds (not i.added) h (join i.cfd s.sessions s.players h)))

  on_accept-Holds : (is : List Incoming) (s : Server) → Holds s → Holds (on_accept is s)
  unfolding on_accept
  on_accept-Holds [] s h = h
  on_accept-Holds (i ∷ is) s h =
      option_cases Holds s.listen_fd (λ shut. h)
        (λ fd e. on_accept-Holds is (accept_one i s) (accept_one-Holds i s h))

  epoll_mod-Holds :
      (b : Bool) (fd : ℕ) (w : Watch) (s : Server) → Holds s → Holds (epoll_mod b fd w s)
  unfolding epoll_mod
  epoll_mod-Holds b fd w s h = if_both Holds b h h

  handle_channel_auth-Holds :
      (fd : ℕ) (loaded : Option ℕ) (s : Server) → Holds s → Holds (handle_channel_auth fd loaded s)
  unfolding handle_channel_auth add_player
  handle_channel_auth-Holds fd none s h = h
  handle_channel_auth-Holds fd (some id) s h =
      option_cases Holds (lookup fd s.sessions) (λ gone. h)
        (λ c e.
          option_cases
            (λ (added : Dict ℕ × Bool). Holds (
              if not added.1 then s else record s {
                sessions = insert fd (record c { player = some id; has_manager = true }) s.sessions;
                players = added.0;
              }))
            (lookup id s.players) (λ free. login fd id c s.sessions s.players e free h)
            (λ old taken. h))

  act_all-Holds :
      (mods : ℕ → Bool) (fd : ℕ) (actions : List Action) (s : Server)
      → Holds s
      → Holds (act_all mods fd actions s)
  unfolding act_all act send_to
  act_all-Holds mods fd [] s h = h
  act_all-Holds mods fd (sends to packet ∷ actions) s h = act_all-Holds mods fd actions _ (
      option_cases Holds (lookup to s.sessions) (λ gone. h)
        (λ c e. if_both Holds (not (enqueue_send packet c.sender).1) h (
          epoll_mod-Holds (mods to) to reads_writes _ (
            put to c (record c { sender = (enqueue_send packet c.sender).0 }) s.sessions s.players e
              refl refl h))))
  act_all-Holds mods fd (logs_in loaded ∷ actions) s h =
      act_all-Holds mods fd actions _ (handle_channel_auth-Holds fd loaded s h)

  on_send-Holds :
      (mods : ℕ → Bool) (fd : ℕ) (answers : List SendResult) (s : Server)
      → Holds s
      → Holds (on_send mods fd answers s)
  unfolding on_send
  on_send-Holds mods fd answers s h =
      option_cases Holds (lookup fd s.sessions) (λ gone. h)
        (λ c e.
          let new = record c { sender = (flush_send answers c.sender).0 } in
          let after = put fd c new s.sessions s.players e refl refl h in
          if_both Holds (not (flush_send answers c.sender).1)
            (on_disconnect-Holds fd (record s { sessions = insert fd new s.sessions }) after)
            (if_both Holds (not (has_pending_send new.sender))
              (epoll_mod-Holds (mods fd) fd reads _ after) after))

  module _ (mods : ℕ → Bool) (handler : ℕ → ParsedPacket → Server → List Action) where
    dispatch_all-Holds :
        (fd : ℕ) (packets : List ParsedPacket) (s : Server)
        → Holds s
        → Holds (dispatch_all mods handler fd packets s)
    unfolding dispatch_all
    dispatch_all-Holds fd [] s h = h
    dispatch_all-Holds fd (p ∷ packets) s h =
        dispatch_all-Holds fd packets _ (act_all-Holds mods fd (handler fd p s) s h)

    on_receive-Holds :
        (fd : ℕ) (recv : Recv) (s : Server) → Holds s → Holds (on_receive mods handler fd recv s)
    unfolding on_receive
    on_receive-Holds fd closed s h = on_disconnect-Holds fd s h
    on_receive-Holds fd failed s h = on_disconnect-Holds fd s h
    on_receive-Holds fd (got bytes) s h =
        option_cases Holds (lookup fd s.sessions) (λ gone. h)
          (λ c e.
            let r = on_bytes bytes c.recv_buf in
            let new = record c { recv_buf = r.recv_buf } in
            let after =
              dispatch_all-Holds fd r.packets (record s { sessions = insert fd new s.sessions })
                (put fd c new s.sessions s.players e refl refl h) in
            if_both Holds r.ok after (on_disconnect-Holds fd _ after))

    pub on_event-Holds : (e : Event) (s : Server) → Holds s → Holds (on_event mods handler e s)
    unfolding on_event on_ready
    on_event-Holds (incoming is) s h = on_accept-Holds is s h
    on_event-Holds (ready r) s h =
        let h' = if_both Holds r.input (on_receive-Holds r.fd r.recv s h) h in
        if_both Holds r.hangup (on_disconnect-Holds r.fd s h) (
          if_both Holds (is_session r.fd _ && r.output) (on_send-Holds mods r.fd r.answers _ h') h')

    pub Reached-Holds : {start s : Server} → Holds start → Reached mods handler start s → Holds s
    Reached-Holds h here = h
    Reached-Holds h (next e before sound) = on_event-Holds e _ (Reached-Holds h before)
