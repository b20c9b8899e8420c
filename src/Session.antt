-- ===== src/Session.antt =====
-- SERVER/src/CHANNEL/app/ChannelSession.cpp: the bytes that a client sends, cut into packets for
-- `Dispatch`, and the packets that are queued and sent to it. What `Dispatch` does with a packet is
-- left out. The answers of the system call `send` are an argument.
pub mod Receive
pub mod Send
mod Tests
use ll2games_rpg.Prelude.{
  ℕ, zero, suc, ◌+◌, ◌-◌, Bool, true, false, Option, none, some, List, [], ◌∷◌, ◌++◌, ◌==◌,
  if◌then◌else◌, length, take, drop,
}
use ll2games_rpg.Packet.{Bytes, ParsedPacket, need_more_data, invalid_packet, complete, try_parse}

-- The packets that are dispatched, the buffer that is left, and the `bool` that is returned.
pub record Received : Type 0 where
  pub packets : List ParsedPacket
  pub recv_buf : Bytes
  pub ok : Bool

abbrev pub dispatch : ParsedPacket → Received → Received
dispatch p r = record r { packets = p ∷ r.packets }

-- The `while (true)`, on fuel.
pub receive_loop : ℕ → Bytes → Received
receive_loop zero buf = record { packets = []; recv_buf = buf; ok = true }
receive_loop (suc fuel) buf =
    let (result, rest) = try_parse buf in
    elim result [
      | need_more_data ↦ record { packets = []; recv_buf = rest; ok = true }
      | invalid_packet ↦ record { packets = []; recv_buf = rest; ok = false }
      | complete p ↦ dispatch p (receive_loop fuel rest)
    ]

-- Each turn takes 4 bytes or more off the buffer.
pub on_bytes : Bytes → Bytes → Received
on_bytes bytes recv_buf = receive_loop (suc (length (recv_buf ++ bytes))) (recv_buf ++ bytes)

-- The answer of `send`: a number of bytes, or -1 with its `errno`.
pub data SendResult : Type 0 where
  sent : ℕ → SendResult
  eintr eagain failed : SendResult

-- `m_sendQueue` and `m_sendOffset`, with all the bytes that have gone out on the socket.
pub record Sender : Type 0 where
  pub send_queue : List Bytes
  pub send_offset : ℕ
  pub wire : Bytes

-- The `int` that is returned is 0 for true and -1 for false.
pub enqueue_send : Bytes → Sender → Sender × Bool
enqueue_send [] s = (s, false)
enqueue_send (b ∷ packet) s = (record s { send_queue = s.send_queue ++ (b ∷ packet) ∷ [] }, true)

-- After `send` has taken `n` bytes of the first packet.
pub advance : ℕ → Bytes → List Bytes → Sender → Sender
advance n packet queue s =
    let wire = s.wire ++ take n (drop s.send_offset packet) in
    let offset = s.send_offset + n in
    if offset == length packet
    then record { send_queue = queue; send_offset = 0; wire = wire }
    else record { send_queue = packet ∷ queue; send_offset = offset; wire = wire }

-- One turn of FlushSend with the queue and the answer of `send`: the `bool` that it returns, or `none`
-- for the next turn.
pub turn : SendResult → List Bytes → Sender → Sender × Option Bool
turn answer [] s = (s, some true)
turn (sent zero) (packet ∷ queue) s = (s, some false)
turn (sent (suc n)) (packet ∷ queue) s = (advance (suc n) packet queue s, none)
turn eintr (packet ∷ queue) s = (s, none)
turn eagain (packet ∷ queue) s = (s, some true)
turn failed (packet ∷ queue) s = (s, some false)

-- When the answers end, the socket takes no more.
pub flush_send : List SendResult → Sender → Sender × Bool
flush_send [] s = (s, true)
flush_send (answer ∷ answers) s =
    let (s', outcome) = turn answer s.send_queue s in
    elim outcome [ some result ↦ (s', result) | none ↦ flush_send answers s' ]
