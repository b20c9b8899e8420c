-- ===== src/Session/Tests.antt =====
-- Two packets that arrive in three chunks, and two that go out in pieces.
use ll2games_rpg.Prelude.{◌≡◌, refl, true, List, [], ◌∷◌, ◌++◌, arith}
use ll2games_rpg.Packet.{Bytes, ParsedPacket, make_packet}
use ll2games_rpg.Session.{sent, eintr, eagain, turn, advance, enqueue_send, flush_send}
use ll2games_rpg.Session.Receive.{feed, concat, made, feed-make_packet}
use ll2games_rpg.Session.Send.{
  Call, enqueues, flushes, run, pending, queued, new_sender, AllHonest, Honest, run-pending,
}

abbrev hello : ParsedPacket
hello = record { type_id = 1; payload = 72 ∷ 105 ∷ [] }

abbrev empty : ParsedPacket
empty = record { type_id = 2; payload = [] }

abbrev chunks : List Bytes
chunks = (6 ∷ []) ∷ (0 ∷ 1 ∷ 0 ∷ 72 ∷ 105 ∷ 4 ∷ 0 ∷ []) ∷ (2 ∷ 0 ∷ []) ∷ []

all_bytes : concat chunks ≡ made (hello ∷ empty ∷ [])
unfolding make_packet
all_bytes = refl

feed-make_packet_example :
    feed chunks [] ≡ record { packets = hello ∷ empty ∷ []; recv_buf = []; ok = true }
feed-make_packet_example =
    feed-make_packet (hello ∷ empty ∷ []) chunks
      ((omega arith, omega arith), ((omega arith, omega arith), tt)) all_bytes

abbrev calls : List Call
calls =
    enqueues (1 ∷ 2 ∷ 3 ∷ [])
    ∷ flushes (sent 2 ∷ eagain ∷ [])
    ∷ enqueues (4 ∷ [])
    ∷ flushes (eintr ∷ sent 1 ∷ [])
    ∷ []

calls-AllHonest : AllHonest calls new_sender
unfolding AllHonest Honest flush_send enqueue_send turn advance
calls-AllHonest = ((omega arith, (tt, tt)), ((tt, (omega arith, tt)), tt))

run-pending_example : (run calls new_sender).wire ++ pending (run calls new_sender) ≡ queued calls
run-pending_example = run-pending calls calls-AllHonest
