-- ===== src/Server/Tests.antt =====
-- A server with one client, whose packets of type 9 log it in and whose others are sent back.
use ll2games_rpg.Prelude.{
  ℕ, ◌≡◌, refl, Bool, true, false, Option, none, some, List, [], ◌∷◌, ◌==◌, if◌then◌else◌, arith,
}
use ll2games_rpg.Prelude.Dict.{lookup}
use ll2games_rpg.Packet.{Bytes, ParsedPacket}
use ll2games_rpg.Server.{
  Client, Server, reads_writes, Action, sends, logs_in, got, Event, incoming, ready, Reached, here,
  next, on_event, handle_channel_auth,
}
use ll2games_rpg.Server.Sessions.{IsServed, Fits-if, Reached-IsServed}
use ll2games_rpg.Server.Players.{Owned, one_session, second_login_locks_out}
use ll2games_rpg.Server.Channel.{
  full, can_enter_channel, update_channel_state, can_enter_by_sessions,
}

abbrev first_of : Bytes → Option ℕ
first_of [] = none
first_of (b ∷ bytes) = some b

abbrev handler : ℕ → ParsedPacket → Server → List Action
handler fd p s =
    if p.type_id == 9 then logs_in (first_of p.payload) ∷ [] else sends fd (7 ∷ 7 ∷ []) ∷ []

abbrev mods : ℕ → Bool
mods fd = true

abbrev started : Server
started = record {
  listen_fd = some 3;
  sessions = [];
  watches = [];
  players = [];
  current_user_count = 0;
}

started-IsServed : IsServed started
started-IsServed = record { distinct = tt; agree = λ fd. tt; counted = refl }

started-Owned : Owned started.sessions started.players
started-Owned fd c id e is = cc

abbrev joins : Event
joins = incoming (record { cfd = 5; nonblocking = true; nodelay = true; added = true } ∷ [])

abbrev asks : Event
asks = ready (record {
  fd = 5;
  hangup = false;
  input = true;
  output = false;
  recv = got (5 ∷ 0 ∷ 9 ∷ 0 ∷ 42 ∷ 4 ∷ 0 ∷ 1 ∷ 0 ∷ []);
  answers = [];
})

abbrev served : Server
served = on_event mods handler asks (on_event mods handler joins started)

served-Reached : Reached mods handler started served
served-Reached = next asks (next joins here (refl, tt)) tt

Reached-IsServed_example : IsServed served
Reached-IsServed_example =
    Reached-IsServed mods (λ fd. refl) handler started-IsServed served-Reached

abbrev client : Client
client = record {
  recv_buf = [];
  sender = record { send_queue = []; send_offset = 0; wire = [] };
  player = some 42;
  has_manager = true;
}

abbrev logged_in : Server
logged_in = record {
  listen_fd = some 3;
  sessions = (5, client) ∷ [];
  watches = (5, reads_writes) ∷ [];
  players = (42, 5) ∷ [];
  current_user_count = 1;
}

logged_in-Owned : Owned logged_in.sessions logged_in.players
logged_in-Owned fd c id e is = (ground arith, ground arith)

abbrev hangs_up : Event
hangs_up =
    ready
      (record { fd = 5; hangup = true; input = false; output = false; recv = got []; answers = [] })

one_session_example : (◌≡◌ {A = ℕ} 5 5) × (lookup 42 logged_in.players ≡ some 5)
one_session_example =
    one_session mods handler {start = logged_in} {s = logged_in} logged_in-Owned here 5 5 client
      client 42 refl refl refl refl

second_login_locks_out_example :
    handle_channel_auth 6
      (some 42)
      (on_event mods handler hangs_up (handle_channel_auth 5 (some 43) logged_in))
    ≡ on_event mods handler hangs_up (handle_channel_auth 5 (some 43) logged_in)
second_login_locks_out_example =
    second_login_locks_out mods handler 5 42 43 client logged_in _ logged_in-Owned refl refl refl
      (next hangs_up here tt) 6

logged_in-IsServed : IsServed logged_in
logged_in-IsServed = record {
  distinct = (refl, tt);
  agree = λ fd. Fits-if (fd == 5) (some client) none (some reads_writes) none tt tt;
  counted = omega arith;
}

can_enter_by_sessions_example :
    can_enter_channel true 1 (update_channel_state true true 1 1 1 []) ≡ full
can_enter_by_sessions_example =
    can_enter_by_sessions logged_in 1 1 [] logged_in-IsServed (omega arith) (omega arith)
