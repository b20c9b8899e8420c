-- ===== src/Session/Send.antt =====
-- The bytes that go out are the bytes that were queued, in their order.
use mathlib.Core.List.{append_assoc, append-nil}
use ll2games_rpg.Prelude.{
  ℕ, zero, suc, ◌+◌, ◌≤◌, ◌<◌, ◌≡◌, ◌==◌, refl, sym, ◌∙◌, ap, subst, true, inl, inr, Bool-cases,
  Option-cases, none, some, List, [], ◌∷◌, ◌++◌, arith, length, length-append, length-drop, take,
  drop, take_front, drop_front, take_drop, drop_add, drop-append, All,
}
use ll2games_rpg.Packet.{Bytes}
use ll2games_rpg.Session.{
  SendResult, sent, eintr, eagain, failed, Sender, enqueue_send, advance, turn, flush_send,
}
use ll2games_rpg.Session.Receive.{concat}

-- What `send` documents: it takes no more bytes than it is given.
abbrev pub Fits : SendResult → List Bytes → ℕ → Type 0
Fits (sent n) (packet ∷ queue) offset = offset + n ≤ length packet
Fits _ _ offset = Unit

unfoldable pub Honest : List SendResult → Sender → Type 0
Honest [] s = Unit
Honest (answer ∷ answers) s =
    Fits answer s.send_queue s.send_offset × elim (turn answer s.send_queue s).1 [
      | some result ↦ Unit
      | none ↦ Honest answers (turn answer s.send_queue s).0
    ]

-- A call on a session, with the answers of `send`.
pub data Call : Type 0 where
  enqueues : Bytes → Call
  flushes : List SendResult → Call

pub run : List Call → Sender → Sender
run [] s = s
run (enqueues packet ∷ calls) s = run calls (enqueue_send packet s).0
run (flushes answers ∷ calls) s = run calls (flush_send answers s).0

unfoldable pub AllHonest : List Call → Sender → Type 0
AllHonest [] s = Unit
AllHonest (enqueues packet ∷ calls) s = AllHonest calls (enqueue_send packet s).0
AllHonest (flushes answers ∷ calls) s = Honest answers s × AllHonest calls (flush_send answers s).0

abbrev pub queued : List Call → Bytes
queued [] = []
queued (enqueues packet ∷ calls) = packet ++ queued calls
queued (flushes answers ∷ calls) = queued calls

-- The bytes that are still to go out.
abbrev pub pending : Sender → Bytes
pending s = drop s.send_offset (concat s.send_queue)

-- No packet is empty, and the offset lies inside the first.
abbrev Inside : List Bytes → ℕ → Type 0
Inside [] offset = offset ≡ 0
Inside (packet ∷ queue) offset = (offset < length packet) × All (λ p. 0 < length p) queue

Inside-start : (queue : List Bytes) → All (λ p. 0 < length p) queue → Inside queue 0
Inside-start [] h = refl
Inside-start (p ∷ queue) (h, hs) = (h, hs)

advance-Inside :
    (n : ℕ) (packet : Bytes) (queue : List Bytes) (s : Sender)
    → Inside (packet ∷ queue) s.send_offset
    → s.send_offset + n ≤ length packet
    → Inside (advance n packet queue s).send_queue (advance n packet queue s).send_offset
unfolding advance
advance-Inside n packet queue s (lo, rest) h =
    elim (Bool-cases ((s.send_offset + n) == length packet)) [
      | inl all ↦ rw (all, advance) (Inside-start queue rest)
      | inr some_left ↦ rw (some_left, advance) (ground arith, rest)
    ]

advance_keeps :
    (n : ℕ) (packet : Bytes) (queue : List Bytes) (s : Sender)
    → s.send_offset + n ≤ length packet
    → (advance n packet queue s).wire ++ pending (advance n packet queue s)
      ≡ s.wire ++ drop s.send_offset (packet ++ concat queue)
unfolding advance
advance_keeps n packet queue s h =
    let o = s.send_offset in
    let c = concat queue in
    let front : take n (drop o packet) ++ drop (o + n) (packet ++ c) ≡ drop o (packet ++ c) =
      ap (λ xs. xs ++ drop (o + n) (packet ++ c))
        (sym (take_front n (drop o packet) c (omega (arith, length-drop o packet))))
      ∙ ap (λ xs. take n (drop o packet ++ c) ++ xs) (sym (drop_add o n (packet ++ c)))
      ∙ ap (λ xs. take n xs ++ drop n (drop o (packet ++ c)))
          (sym (drop_front o packet c (omega arith)))
      ∙ take_drop n (drop o (packet ++ c)) in
    let same_end : ((o + n) == length packet) ≡ true → o + n ≡ length packet = λ e. ground arith in
    elim (Bool-cases ((o + n) == length packet)) [
      | inl all ↦
          rw (all, advance)
            (append_assoc s.wire (take n (drop o packet)) c
              ∙ ap (λ xs. s.wire ++ xs)
                  (ap (λ xs. take n (drop o packet) ++ xs)
                      (sym (ap (λ k. drop k (packet ++ c)) (same_end all) ∙ drop-append packet c))
                    ∙ front))
      | inr some_left ↦
          rw (some_left, advance)
            (append_assoc s.wire (take n (drop o packet)) (drop (o + n) (packet ++ c))
              ∙ ap (λ xs. s.wire ++ xs) front)
    ]

-- What every call keeps.
abbrev Keeps : Sender → Sender → Type 0
Keeps s s' = (s'.wire ++ pending s' ≡ s.wire ++ pending s) × Inside s'.send_queue s'.send_offset

turn-Keeps :
    (answer : SendResult) (queue : List Bytes) (s : Sender)
    → s.send_queue ≡ queue
    → Inside queue s.send_offset
    → Fits answer queue s.send_offset
    → Keeps s (turn answer queue s).0
unfolding turn
turn-Keeps answer [] s e v h = (refl, subst (λ q. Inside q s.send_offset) (sym e) v)
turn-Keeps (sent zero) (packet ∷ queue) s e v h =
    (refl, subst (λ q. Inside q s.send_offset) (sym e) v)
turn-Keeps (sent (suc n)) (packet ∷ queue) s e v h = (
  advance_keeps (suc n) packet queue s h
      ∙ ap (λ q. s.wire ++ drop s.send_offset (concat q)) (sym e),
  advance-Inside (suc n) packet queue s v h,
)
turn-Keeps eintr (packet ∷ queue) s e v h = (refl, subst (λ q. Inside q s.send_offset) (sym e) v)
turn-Keeps eagain (packet ∷ queue) s e v h = (refl, subst (λ q. Inside q s.send_offset) (sym e) v)
turn-Keeps failed (packet ∷ queue) s e v h = (refl, subst (λ q. Inside q s.send_offset) (sym e) v)

flush_send-Keeps :
    (answers : List SendResult) (s : Sender)
    → Inside s.send_queue s.send_offset
    → Honest answers s
    → Keeps s (flush_send answers s).0
unfolding Honest flush_send
flush_send-Keeps [] s v h = (refl, v)
flush_send-Keeps (answer ∷ answers) s v (fits, h) =
    let (same, inside) = turn-Keeps answer s.send_queue s refl v fits in
    let s' = (turn answer s.send_queue s).0 in
    elim (Option-cases (turn answer s.send_queue s).1) [
      | inl next ↦
          let h' : Honest answers s' = rw (next, Honest) at h in
          let (same', inside') = flush_send-Keeps answers s' inside h' in
          rw (next, flush_send) (same' ∙ same, inside')
      | inr (result, stop) ↦ rw (stop, flush_send) (same, inside)
    ]

concat-append : (queue : List Bytes) (p : Bytes) → concat (queue ++ p ∷ []) ≡ concat queue ++ p
concat-append [] p = append-nil p
concat-append (q ∷ queue) p =
    ap (λ xs. q ++ xs) (concat-append queue p) ∙ sym (append_assoc q (concat queue) p)

All-append :
    (queue : List Bytes) (p : Bytes)
    → All (λ q. 0 < length q) queue
    → 0 < length p
    → All (λ q. 0 < length q) (queue ++ p ∷ [])
All-append [] p h l = (l, tt)
All-append (q ∷ queue) p (h, hs) l = (h, All-append queue p hs l)

queue-Inside :
    (queue : List Bytes) (p : Bytes) (offset : ℕ)
    → 0 < length p
    → Inside queue offset
    → Inside (queue ++ p ∷ []) offset × (offset ≤ length (concat queue))
queue-Inside [] p offset l v = ((omega (arith, v), tt), omega (arith, v))
queue-Inside (q ∷ queue) p offset l (v, vs) =
    ((v, All-append queue p vs l), omega (arith, length-append q (concat queue)))

enqueue_send-Inside :
    (packet : Bytes) (s : Sender)
    → Inside s.send_queue s.send_offset
    → let s' = (enqueue_send packet s).0 in
      (s'.wire ++ pending s' ≡ (s.wire ++ pending s) ++ packet)
      × Inside s'.send_queue s'.send_offset
unfolding enqueue_send
enqueue_send-Inside [] s v = (sym (append-nil (s.wire ++ pending s)), v)
enqueue_send-Inside (b ∷ packet) s v =
    let p : Bytes = b ∷ packet in
    let o = s.send_offset in
    let (inside, short) = queue-Inside s.send_queue p o (omega arith) v in
    (
      ap (λ xs. s.wire ++ drop o xs) (concat-append s.send_queue p)
          ∙ ap (λ xs. s.wire ++ xs) (drop_front o (concat s.send_queue) p short)
          ∙ sym (append_assoc s.wire (pending s) p),
      inside,
    )

run_sends :
    (calls : List Call) (s : Sender)
    → Inside s.send_queue s.send_offset
    → AllHonest calls s
    → (run calls s).wire ++ pending (run calls s) ≡ (s.wire ++ pending s) ++ queued calls
unfolding run AllHonest
run_sends [] s v h = sym (append-nil (s.wire ++ pending s))
run_sends (enqueues packet ∷ calls) s v h =
    let (more, v') = enqueue_send-Inside packet s v in
    run_sends calls (enqueue_send packet s).0 v' h
    ∙ ap (λ xs. xs ++ queued calls) more
    ∙ append_assoc (s.wire ++ pending s) packet (queued calls)
run_sends (flushes answers ∷ calls) s v (honest, h) =
    let (same, v') = flush_send-Keeps answers s v honest in
    run_sends calls (flush_send answers s).0 v' h ∙ ap (λ xs. xs ++ queued calls) same

abbrev pub new_sender : Sender
new_sender = record { send_queue = []; send_offset = 0; wire = [] }

-- However the calls of EnqueueSend and FlushSend follow, and however many bytes the system takes at a
-- time, what has gone out on the socket and what is still pending are together exactly the packets
-- that were queued, in their order: no byte is lost, sent twice or overtaken. The hypothesis is that
-- `send` takes no more bytes than it is given.
pub run-pending :
    (calls : List Call)
    → AllHonest calls new_sender
    → (run calls new_sender).wire ++ pending (run calls new_sender) ≡ queued calls
run-pending calls h = run_sends calls new_sender refl h

turn-empty :
    (answer : SendResult) (s : Sender) (queue : List Bytes)
    → queue ≡ []
    → turn answer queue s ≡ (s, some true)
unfolding turn
turn-empty answer s [] e = refl
turn-empty answer s (packet ∷ queue) e = cc

-- With nothing queued there is nothing to send.
pub flush_send-empty :
    (answers : List SendResult) (s : Sender)
    → s.send_queue ≡ []
    → (flush_send answers s).0.send_queue ≡ []
unfolding flush_send
flush_send-empty [] s e = e
flush_send-empty (answer ∷ answers) s e =
    rw (turn-empty answer s s.send_queue e, flush_send)
      (ap (λ t. t.0.send_queue) (turn-empty answer s s.send_queue e) ∙ e)
