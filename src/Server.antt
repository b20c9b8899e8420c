-- ===== src/Server.antt =====
-- SERVER/src/CHANNEL/app/ChannelServer.cpp: the sessions of the clients and the events of the loop
-- that serves them, with the destructor of SERVER/src/CHANNEL/app/ChannelSession.cpp, the table of
-- SERVER/src/CHANNEL/manager/PlayerManager.cpp and the log-in of
-- SERVER/src/CHANNEL/packet/ChannelInitHandler.cpp. The answers of the system calls are arguments.
-- What the other packet handlers do to a session is to send; which packets they send, and to whom, is
-- a parameter.
pub mod Sessions
pub mod Events
pub mod Players
pub mod Channel
mod Tests
use ll2games_rpg.Prelude.{
  ℕ, ◌+◌, ◌-◌, ◌%◌, ◌^◌, ◌≡◌, Bool, true, false, not, ◌&&◌, ◌||◌, Option, none, some, List, [], ◌∷◌,
  ◌==◌, if◌then◌else◌,
}
use ll2games_rpg.Prelude.Dict.{Dict, lookup, insert, erase}
use ll2games_rpg.Packet.{Bytes, ParsedPacket}
use ll2games_rpg.Session.{SendResult, Sender, on_bytes, enqueue_send, flush_send}

-- ChannelSession. `player` is the id of `m_player`, and `has_manager` says that `m_playerManager` is set.
pub record Client : Type 0 where
  pub recv_buf : Bytes
  pub sender : Sender
  pub player : Option ℕ
  pub has_manager : Bool

-- What the calls of `epoll_ctl` that succeeded have asked for on an open descriptor.
pub data Watch : Type 0 where
  unwatched reads reads_writes : Watch

-- `watches` has an entry for each descriptor of a client that is open. `players` is the table of
-- PlayerManager, with the descriptor of the session that the player was given.
pub record Server : Type 0 where
  pub listen_fd : Option ℕ
  pub sessions : Dict Client
  pub watches : Dict Watch
  pub players : Dict ℕ
  pub current_user_count : ℕ

-- PlayerManager::AddPlayer, GetPlayer and RemovePlayer on the table.
pub add_player : ℕ → ℕ → Dict ℕ → Dict ℕ × Bool
add_player id session players = elim (lookup id players) [
  | some old ↦ (players, false)
  | none ↦ (insert id session players, true)
]

pub remove_player : ℕ → Dict ℕ → Dict ℕ × Bool
remove_player id players = elim (lookup id players) [
  | none ↦ (players, false)
  | some old ↦ (erase id players, true)
]

-- EPOLL_CTL_MOD, with the answer whether it succeeded: EnableWriteEvent and DisableWriteEvent.
pub epoll_mod : Bool → ℕ → Watch → Server → Server
epoll_mod success fd w s = if success then record s { watches = insert fd w s.watches } else s

-- EnqueueSend on the session of a descriptor; `mods` answers EPOLL_CTL_MOD.
pub send_to : (ℕ → Bool) → ℕ → Bytes → Server → Server
send_to mods fd packet s = elim (lookup fd s.sessions) [
  | none ↦ s
  | some c ↦
      let (sender, queued) = enqueue_send packet c.sender in
      if not queued
      then s
      else epoll_mod (mods fd) fd reads_writes
          (record s { sessions = insert fd (record c { sender = sender }) s.sessions })
]

-- HandleChannelAuth without its replies, for the id of the player that LoadPlayer loaded, if it did.
pub handle_channel_auth : ℕ → Option ℕ → Server → Server
handle_channel_auth fd none s = s
handle_channel_auth fd (some id) s = elim (lookup fd s.sessions) [
  | none ↦ s
  | some c ↦
      let (players, success) = add_player id fd s.players in
      if not success then s else record s {
        sessions = insert fd (record c { player = some id; has_manager = true }) s.sessions;
        players = players;
      }
]

-- The destructor of a session.
pub leave : Client → Dict ℕ → Dict ℕ
leave c players = elim c.player [
  | none ↦ players
  | some id ↦ if c.has_manager then (remove_player id players).0 else players
]

pub on_disconnect : ℕ → Server → Server
on_disconnect fd s = elim (lookup fd s.sessions) [
  | none ↦ s
  | some c ↦ record s {
    sessions = erase fd s.sessions;
    watches = erase fd s.watches;
    players = leave c s.players;
    current_user_count = (s.current_user_count + 2 ^ 32 - 1) % 2 ^ 32;
  }
]

pub empty_client : Client
empty_client = record {
  recv_buf = [];
  sender = record { send_queue = []; send_offset = 0; wire = [] };
  player = none;
  has_manager = false;
}

-- One turn of OnAccept: the new descriptor, and whether SetNonblocking, `setsockopt` and
-- EPOLL_CTL_ADD succeed on it.
pub record Incoming : Type 0 where
  pub cfd : ℕ
  pub nonblocking : Bool
  pub nodelay : Bool
  pub added : Bool

pub accept_one : Incoming → Server → Server
accept_one i s =
    if not i.nonblocking
    then s
    else if not i.nodelay
    then record s { listen_fd = none }
    else if not i.added
    then s
    else record s {
      sessions = insert i.cfd empty_client s.sessions;
      watches = insert i.cfd reads s.watches;
      current_user_count = (s.current_user_count + 1) % 2 ^ 32;
    }

-- `accept` on the descriptor -1 fails, which ends the loop.
pub on_accept : List Incoming → Server → Server
on_accept [] s = s
on_accept (i ∷ is) s = elim s.listen_fd [ none ↦ s | some fd ↦ on_accept is (accept_one i s) ]

-- `accept` gives a descriptor that is not open.
abbrev pub AreFresh : List Incoming → Server → Type 0
AreFresh [] s = Unit
AreFresh (i ∷ is) s = (lookup i.cfd s.watches ≡ none) × AreFresh is (accept_one i s)

-- What a handler does to the sessions: it sends, or logs its own session in.
pub data Action : Type 0 where
  sends : ℕ → Bytes → Action
  logs_in : Option ℕ → Action

pub act : (ℕ → Bool) → ℕ → Action → Server → Server
act mods fd (sends to packet) s = send_to mods to packet s
act mods fd (logs_in loaded) s = handle_channel_auth fd loaded s

pub act_all : (ℕ → Bool) → ℕ → List Action → Server → Server
act_all mods fd [] s = s
act_all mods fd (a ∷ actions) s = act_all mods fd actions (act mods fd a s)

-- What `recv` has given until it ended the loop of OnReceive.
pub data Recv : Type 0 where
  closed failed : Recv
  got : Bytes → Recv

pub record Ready : Type 0 where
  pub fd : ℕ
  pub hangup : Bool
  pub input : Bool
  pub output : Bool
  pub recv : Recv
  pub answers : List SendResult

-- An event of `epoll_wait`, on the listening socket or on a client's.
pub data Event : Type 0 where
  incoming : List Incoming → Event
  ready : Ready → Event

pub has_pending_send : Sender → Bool
has_pending_send sender = elim sender.send_queue [ [] ↦ false | packet ∷ rest ↦ true ]

pub on_send : (ℕ → Bool) → ℕ → List SendResult → Server → Server
on_send mods fd answers s = elim (lookup fd s.sessions) [
  | none ↦ s
  | some c ↦
      let flushed = flush_send answers c.sender in
      let s' = record s { sessions = insert fd (record c { sender = flushed.0 }) s.sessions } in
      if not flushed.1
      then on_disconnect fd s'
      else if not (has_pending_send flushed.0)
      then epoll_mod (mods fd) fd reads s'
      else s'
]

pub is_session : ℕ → Server → Bool
is_session fd s = elim (lookup fd s.sessions) [ none ↦ false | some c ↦ true ]

-- What the system promises of an event.
abbrev pub Sound : Event → Server → Type 0
Sound (incoming is) s = AreFresh is s
Sound (ready r) s = Unit

module _ (mods : ℕ → Bool) (handler : ℕ → ParsedPacket → Server → List Action) where
  -- Dispatch, for each packet in turn.
  pub dispatch_all : ℕ → List ParsedPacket → Server → Server
  dispatch_all fd [] s = s
  dispatch_all fd (p ∷ packets) s = dispatch_all fd packets (act_all mods fd (handler fd p s) s)

  -- The buffer is cut into packets before they are dispatched: no handler reads it.
  pub on_receive : ℕ → Recv → Server → Server
  on_receive fd closed s = on_disconnect fd s
  on_receive fd failed s = on_disconnect fd s
  on_receive fd (got bytes) s = elim (lookup fd s.sessions) [
    | none ↦ s
    | some c ↦
        let r = on_bytes bytes c.recv_buf in
        let kept = record s {
          sessions = insert fd (record c { recv_buf = r.recv_buf }) s.sessions;
        } in
        let s' = dispatch_all fd r.packets kept in if r.ok then s' else on_disconnect fd s'
  ]

  pub on_ready : Ready → Server → Server
  on_ready r s =
      if r.hangup
      then on_disconnect r.fd s
      else (let s' = if r.input then on_receive r.fd r.recv s else s in
          if is_session r.fd s' && r.output then on_send mods r.fd r.answers s' else s')

  -- The body of the loop in GameLoop.
  pub on_event : Event → Server → Server
  on_event (incoming is) s = on_accept is s
  on_event (ready r) s = on_ready r s

  pub data Reached (start : Server) : Server → Type 0 where
    here : Reached start start
    next : {s : Server} (e : Event) → Reached start s → Sound e s → Reached start (on_event e s)
