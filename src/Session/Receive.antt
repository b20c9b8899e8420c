-- ===== src/Session/Receive.antt =====
-- How the bytes of a client are cut on their way does not matter.
use mathlib.Core.List.{append_assoc, append-nil}
use ll2games_rpg.Prelude.{
  ℕ, zero, suc, ◌+◌, ◌≤◌, ◌<◌, ◌≡◌, refl, sym, ◌∙◌, ap, true, false, ◌⊎◌, inl, inr, Bool-cases,
  List, [], ◌∷◌, ◌++◌, arith, if◌then◌else◌, length, All,
}
use ll2games_rpg.Packet.{
  Bytes, ParsedPacket, ParseResult, need_more_data, invalid_packet, complete, try_parse,
  make_packet, header_size, buffer_size,
}
use ll2games_rpg.Packet.Stream.{try_parse-make_packet}
use ll2games_rpg.Packet.Prefix.{
  try_parse-nothing, try_parse_more, try_parse_still_invalid, try_parse_waits, try_parse_shorter,
}
use ll2games_rpg.Session.{Received, dispatch, receive_loop, on_bytes}

result_cases :
    (r : ParseResult × Bytes)
    → (r.0 ≡ need_more_data)
      ⊎ ((r.0 ≡ invalid_packet) ⊎ ((p : ParsedPacket) × (r ≡ (complete p, r.1))))
result_cases (need_more_data, rest) = inl refl
result_cases (invalid_packet, rest) = inr (inl refl)
result_cases (complete p, rest) = inr (inr (p, refl))

loop_waits :
    (n : ℕ) (buf : Bytes)
    → (try_parse buf).0 ≡ need_more_data
    → receive_loop (suc n) buf ≡ record { packets = []; recv_buf = buf; ok = true }
unfolding receive_loop
loop_waits n buf e = rw (receive_loop, e, try_parse_waits buf e) refl

loop_invalid :
    (n : ℕ) (buf : Bytes)
    → (try_parse buf).0 ≡ invalid_packet
    → receive_loop (suc n) buf ≡ record { packets = []; recv_buf = (try_parse buf).1; ok = false }
unfolding receive_loop
loop_invalid n buf e = rw (receive_loop, e) refl

loop_packet :
    (n : ℕ) (buf rest : Bytes) (p : ParsedPacket)
    → try_parse buf ≡ (complete p, rest)
    → receive_loop (suc n) buf ≡ dispatch p (receive_loop n rest)
unfolding receive_loop
loop_packet n buf rest p e =
    let found : (try_parse buf).0 ≡ complete p = ap (λ r. r.0) e in
    rw (receive_loop, found) (ap (λ r. dispatch p (receive_loop n r.1)) e)

-- Enough fuel is enough.
loop_fuel :
    (n m : ℕ) (buf : Bytes)
    → length buf < n
    → length buf < m
    → receive_loop n buf ≡ receive_loop m buf
loop_fuel zero m buf a b = absurd (omega arith)
loop_fuel (suc n) zero buf a b = absurd (omega arith)
loop_fuel (suc n) (suc m) buf a b = elim (result_cases (try_parse buf)) [
  | inl e ↦ loop_waits n buf e ∙ sym (loop_waits m buf e)
  | inr (inl e) ↦ loop_invalid n buf e ∙ sym (loop_invalid m buf e)
  | inr (inr (p, e)) ↦
      let rest = (try_parse buf).1 in
      let less = try_parse_shorter buf rest p e in
      loop_packet n buf rest p e
      ∙ ap (dispatch p) (loop_fuel n m rest (omega arith) (omega arith))
      ∙ sym (loop_packet m buf rest p e)
]

-- All packets of a buffer.
abbrev pub drain : Bytes → Received
drain buf = receive_loop (suc (length buf)) buf

drain_packet :
    (buf rest : Bytes) (p : ParsedPacket)
    → try_parse buf ≡ (complete p, rest)
    → drain buf ≡ dispatch p (drain rest)
drain_packet buf rest p e =
    let less = try_parse_shorter buf rest p e in
    loop_packet (length buf) buf rest p e
    ∙ ap (dispatch p) (loop_fuel (length buf) (suc (length rest)) rest (omega arith) (omega arith))

-- First these packets, then those of the rest.
abbrev pub after : List ParsedPacket → Received → Received
after ps r = record r { packets = ps ++ r.packets }

-- What a buffer gives when more bytes come behind it.
record More (buf ys : Bytes) : Type 0 where
  going :
      (drain buf).ok ≡ true
      → drain (buf ++ ys) ≡ after (drain buf).packets (drain ((drain buf).recv_buf ++ ys))
  over :
      (drain buf).ok ≡ false
      → ((drain (buf ++ ys)).packets ≡ (drain buf).packets) × ((drain (buf ++ ys)).ok ≡ false)
  waits : (drain buf).ok ≡ true → (try_parse (drain buf).recv_buf).0 ≡ need_more_data

drain-More : (n : ℕ) (buf ys : Bytes) → length buf < n → More buf ys
drain-More zero buf ys h = absurd (omega arith)
drain-More (suc n) buf ys h = elim (result_cases (try_parse buf)) [
  | inl e ↦
      let d = loop_waits (length buf) buf e in
      record {
        going = λ ok. rw d refl;
        over = λ ok. absurd (ground (arith, d));
        waits = λ ok. rw d e;
      }
  | inr (inl e) ↦
      let d = loop_invalid (length buf) buf e in
      let d' = loop_invalid (length (buf ++ ys)) (buf ++ ys) (try_parse_still_invalid buf ys e) in
      record {
        going = λ ok. absurd (ground (arith, d));
        over = λ ok. (rw (d, d') refl, rw d' refl);
        waits = λ ok. absurd (ground (arith, d));
      }
  | inr (inr (p, e)) ↦
      let rest = (try_parse buf).1 in
      let d = drain_packet buf rest p e in
      let d' = drain_packet (buf ++ ys) (rest ++ ys) p (try_parse_more buf rest ys p e) in
      let less = try_parse_shorter buf rest p e in
      let ih = drain-More n rest ys (omega arith) in
      record {
        going = λ ok.
            let ok' : (drain rest).ok ≡ true = rw d at ok in
            rw (d, d') (ap (dispatch p) (ih.going ok'));
        over = λ ok.
            let ok' : (drain rest).ok ≡ false = rw d at ok in
            rw (d, d') (ap (◌∷◌ p) (ih.over ok').0, (ih.over ok').1);
        waits = λ ok. let ok' : (drain rest).ok ≡ true = rw d at ok in rw d (ih.waits ok');
      }
]

-- The calls of `OnBytes` for the chunks that arrive; the server closes the session after a `false`.
pub feed : List Bytes → Bytes → Received
feed [] buf = record { packets = []; recv_buf = buf; ok = true }
feed (chunk ∷ chunks) buf =
    let r = on_bytes chunk buf in
    let later = feed chunks r.recv_buf in if r.ok then after r.packets later else r

abbrev pub concat : List Bytes → Bytes
concat [] = []
concat (c ∷ cs) = c ++ concat cs

-- The same packets and answer, and the same buffer unless the session is closed.
abbrev Agrees : Received → Received → Type 0
Agrees r w = (r.packets ≡ w.packets) × (r.ok ≡ w.ok) × (w.ok ≡ true → r.recv_buf ≡ w.recv_buf)

feed-Agrees :
    (chunks : List Bytes) (buf : Bytes)
    → (try_parse buf).0 ≡ need_more_data
    → Agrees (feed chunks buf) (drain (buf ++ concat chunks))
unfolding feed on_bytes
feed-Agrees [] buf w =
    let whole : drain (buf ++ []) ≡ record { packets = []; recv_buf = buf; ok = true } =
      ap drain (append-nil buf) ∙ loop_waits (length buf) buf w in
    rw whole (refl, refl, λ ok. refl)
feed-Agrees (chunk ∷ chunks) buf w =
    let m = drain-More (suc (length (buf ++ chunk))) (buf ++ chunk) (concat chunks) (omega arith) in
    let split : drain (buf ++ (chunk ++ concat chunks)) ≡ drain ((buf ++ chunk) ++ concat chunks) =
      ap drain (sym (append_assoc buf chunk (concat chunks))) in
    elim (Bool-cases (drain (buf ++ chunk)).ok) [
      | inl ok ↦
          let (packets, answer, left) =
            feed-Agrees chunks (drain (buf ++ chunk)).recv_buf (m.waits ok) in
          let both = split ∙ m.going ok in
          rw (ok, both) (ap (λ ps. (drain (buf ++ chunk)).packets ++ ps) packets, answer, left)
      | inr closed ↦
          let (packets, answer) = m.over closed in
          rw (closed, split) (sym packets, sym answer, λ ok. absurd (ground (arith, answer)))
    ]

abbrev pub Sendable : ParsedPacket → Type 0
Sendable p = (p.type_id < 65536) × (header_size + length p.payload ≤ buffer_size)

abbrev pub made : List ParsedPacket → Bytes
made [] = []
made (p ∷ ps) = make_packet p.type_id p.payload ++ made ps

drain-made :
    (ps : List ParsedPacket)
    → All Sendable ps
    → drain (made ps) ≡ record { packets = ps; recv_buf = []; ok = true }
drain-made [] h = loop_waits 0 [] try_parse-nothing
drain-made (p ∷ ps) ((t, l), h) =
    drain_packet (made (p ∷ ps)) (made ps) p
      (try_parse-make_packet p.type_id p.payload (made ps) t l)
    ∙ ap (dispatch p) (drain-made ps h)

received_eq :
    {r w : Received} → r.packets ≡ w.packets → r.recv_buf ≡ w.recv_buf → r.ok ≡ w.ok → r ≡ w
received_eq p b o = λ i. record { packets = p i; recv_buf = b i; ok = o i }

-- Packets that MakePacket made, of at most 1024 bytes each, are dispatched completely and in their
-- order, and leave no byte behind, in whatever chunks their bytes arrive.
pub feed-make_packet :
    (ps : List ParsedPacket) (chunks : List Bytes)
    → All Sendable ps
    → concat chunks ≡ made ps
    → feed chunks [] ≡ record { packets = ps; recv_buf = []; ok = true }
feed-make_packet ps chunks h e =
    let whole : drain (concat chunks) ≡ record { packets = ps; recv_buf = []; ok = true } =
      ap drain e ∙ drain-made ps h in
    let (packets, answer, left) = feed-Agrees chunks [] try_parse-nothing in
    received_eq (packets ∙ ap (λ r. r.packets) whole)
      (left (ap (λ r. r.ok) whole) ∙ ap (λ r. r.recv_buf) whole) (answer ∙ ap (λ r. r.ok) whole)
