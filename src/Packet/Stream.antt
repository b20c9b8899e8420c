-- ===== src/Packet/Stream.antt =====
-- Packets in the byte stream of a connection.
use ll2games_rpg.Prelude.{
  ℕ, zero, suc, ◌+◌, ◌-◌, ◌*◌, ◌≤◌, ◌<◌, ◌≡◌, refl, ◌∙◌, ap, ap₂, min, some, [], ◌∷◌, ◌++◌, arith,
  length, take, drop, length-append, length-take, take-append, drop-append,
}
use ll2games_rpg.Packet.{
  Bytes, buffer_size, header_size, u16_at, byte_at, ParsedPacket, need_more_data, complete,
  packet_of, parse, try_parse, make_packet,
}

pub try_parse_complete :
    (buf : Bytes) (n : ℕ)
    → u16_at 0 buf ≡ n
    → header_size ≤ n
    → n ≤ buffer_size
    → n ≤ length buf
    → try_parse buf ≡ (complete (packet_of n buf), drop n buf)
unfolding try_parse
try_parse_complete buf n e a b c = ground arith

parse_complete :
    (buf : Bytes) (n : ℕ)
    → u16_at 0 buf ≡ n
    → header_size ≤ n
    → n ≤ length buf
    → parse buf ≡ (some (packet_of n buf), drop n buf)
unfolding parse
parse_complete buf n e a b = ground arith

made_length :
    (type_id : ℕ) (body rest : Bytes)
    → length (make_packet type_id body ++ rest) ≡ header_size + length body + length rest
unfolding make_packet
made_length type_id body rest = omega (arith, length-append body rest)

made_u16 :
    (type_id : ℕ) (body : Bytes)
    → header_size + length body < 65536
    → u16_at 0 (make_packet type_id body) ≡ header_size + length body
unfolding make_packet
made_u16 type_id body h = omega arith

made_first :
    (type_id : ℕ) (body rest : Bytes)
    → header_size + length body < 65536
    → u16_at 0 (make_packet type_id body ++ rest) ≡ header_size + length body
unfolding make_packet
made_first type_id body rest h = omega arith

made_size :
    (type_id : ℕ) (body : Bytes) → length (make_packet type_id body) ≡ header_size + length body
unfolding make_packet
made_size type_id body = omega arith

made_packet :
    (type_id : ℕ) (body rest : Bytes)
    → type_id < 65536
    → packet_of (header_size + length body) (make_packet type_id body ++ rest)
      ≡ record { type_id = type_id; payload = body }
unfolding make_packet packet_of
made_packet type_id body rest t =
    let type_bytes : u16_at 2 (make_packet type_id body ++ rest) ≡ type_id = omega arith in
    let size : header_size + length body - header_size ≡ length body = omega arith in
    ap₂ (λ i n. record { type_id = i; payload = take n (body ++ rest) }) type_bytes size
    ∙ ap (λ p. record { type_id = type_id; payload = p }) (take-append body rest)

drop_header : (n a b c d : ℕ) (bs : Bytes) → drop (header_size + n) (a ∷ b ∷ c ∷ d ∷ bs) ≡ drop n bs
drop_header n a b c d bs =
    let size : header_size + n ≡ suc (suc (suc (suc n))) = omega arith in
    ap (λ k. drop k (a ∷ b ∷ c ∷ d ∷ bs)) size

made_rest :
    (type_id : ℕ) (body rest : Bytes)
    → drop (header_size + length body) (make_packet type_id body ++ rest) ≡ rest
unfolding make_packet
made_rest type_id body rest =
    drop_header (length body) _ _ _ _ (body ++ rest) ∙ drop-append body rest

-- TryParse takes a packet that MakePacket made, of at most 1024 bytes, off the front of the buffer,
-- and leaves the bytes behind it.
pub try_parse-make_packet :
    (type_id : ℕ) (body rest : Bytes)
    → type_id < 65536
    → header_size + length body ≤ buffer_size
    → try_parse (make_packet type_id body ++ rest)
      ≡ (complete (record { type_id = type_id; payload = body }), rest)
try_parse-make_packet type_id body rest t l =
    try_parse_complete (make_packet type_id body ++ rest) (header_size + length body)
      (made_first type_id body rest (omega arith)) (omega arith) l
      (omega (arith, made_length type_id body rest))
    ∙ ap₂ (λ p r. (complete p, r)) (made_packet type_id body rest t) (made_rest type_id body rest)

byte_at-take : (i n : ℕ) (bs : Bytes) → i < n → byte_at i (take n bs) ≡ byte_at i bs
byte_at-take i zero bs h = ground arith
byte_at-take i (suc n) [] h = refl
byte_at-take zero (suc n) (b ∷ bs) h = refl
byte_at-take (suc i) (suc n) (b ∷ bs) h = byte_at-take i n bs (omega arith)

try_parse_incomplete :
    (buf : Bytes) (n k : ℕ)
    → length buf ≡ min k n
    → k < n
    → header_size ≤ n
    → n ≤ buffer_size
    → (header_size ≤ k → u16_at 0 buf ≡ n)
    → try_parse buf ≡ (need_more_data, buf)
unfolding try_parse
try_parse_incomplete buf n k l h a b e = ground arith

-- While a packet of at most 1024 bytes is still incomplete, TryParse asks for more and keeps the buffer.
pub try_parse_prefix :
    (type_id n : ℕ) (body : Bytes)
    → type_id < 65536
    → header_size + length body ≤ buffer_size
    → n < header_size + length body
    → try_parse (take n (make_packet type_id body))
      ≡ (need_more_data, take n (make_packet type_id body))
try_parse_prefix type_id n body t l h =
    let made = make_packet type_id body in
    let size : length made ≡ header_size + length body = made_size type_id body in
    let first : u16_at 0 made ≡ header_size + length body = made_u16 type_id body (omega arith) in
    try_parse_incomplete (take n made) (header_size + length body) n
      (length-take n made ∙ ap (min n) size) h (omega arith) l
      (λ enough.
        ap₂ (λ lo hi. lo + 256 * hi) (byte_at-take 0 n made (omega arith))
          (byte_at-take 1 n made (omega arith))
        ∙ first)

-- Parse takes a packet that MakePacket made, of at most 65535 bytes, off the front of the buffer in
-- the same way.
pub parse-make_packet :
    (type_id : ℕ) (body rest : Bytes)
    → type_id < 65536
    → header_size + length body < 65536
    → parse (make_packet type_id body ++ rest)
      ≡ (some (record { type_id = type_id; payload = body }), rest)
parse-make_packet type_id body rest t l =
    parse_complete (make_packet type_id body ++ rest) (header_size + length body)
      (made_first type_id body rest l) (omega arith) (omega (arith, made_length type_id body rest))
    ∙ ap₂ (λ p r. (some p, r)) (made_packet type_id body rest t) (made_rest type_id body rest)

-- Whatever packet TryParse takes off a buffer, Parse takes too, and leaves the same bytes.
pub try_parse-parse :
    (buf rest : Bytes) (p : ParsedPacket)
    → try_parse buf ≡ (complete p, rest)
    → parse buf ≡ (some p, rest)
unfolding parse try_parse
try_parse-parse buf rest p e = ground arith
