-- ===== src/Packet/Prefix.antt =====
-- What `TryParse` answers before and after more bytes have come.
use ll2games_rpg.Prelude.{
  ℕ, zero, suc, ◌+◌, ◌-◌, ◌*◌, ◌≤◌, ◌<◌, ◌≡◌, refl, ap, ap₂, ◌∙◌, [], ◌∷◌, ◌++◌, arith, length,
  length-append, length-drop, take, drop, take_front, drop_front,
}
use ll2games_rpg.Packet.{
  Bytes, ParsedPacket, need_more_data, invalid_packet, complete, buffer_size, header_size, byte_at,
  u16_at, packet_of, try_parse,
}
use ll2games_rpg.Packet.Stream.{try_parse_complete}

byte_at-front : (n : ℕ) (xs ys : Bytes) → n < length xs → byte_at n (xs ++ ys) ≡ byte_at n xs
byte_at-front n [] ys h = absurd (omega arith)
byte_at-front zero (x ∷ xs) ys h = refl
byte_at-front (suc n) (x ∷ xs) ys h = byte_at-front n xs ys (omega arith)

packet_of-front :
    (n : ℕ) (buf ys : Bytes)
    → header_size ≤ n
    → n ≤ length buf
    → packet_of n (buf ++ ys) ≡ packet_of n buf
unfolding packet_of
packet_of-front n buf ys h l =
    ap₂ (λ i t. record { type_id = i; payload = t })
      (ap₂ (λ lo hi. lo + 256 * hi) (byte_at-front 2 buf ys (omega arith))
        (byte_at-front 3 buf ys (omega arith)))
      (ap (take (n - header_size)) (drop_front header_size buf ys (omega arith))
        ∙ take_front (n - header_size) (drop header_size buf) ys
            (omega (arith, length-drop header_size buf)))

-- What it takes for TryParse to find a packet.
try_parse_found :
    (buf rest : Bytes) (p : ParsedPacket)
    → try_parse buf ≡ (complete p, rest)
    → (header_size ≤ u16_at 0 buf)
      × (u16_at 0 buf ≤ buffer_size)
      × (u16_at 0 buf ≤ length buf)
      × (packet_of (u16_at 0 buf) buf ≡ p)
      × (drop (u16_at 0 buf) buf ≡ rest)
unfolding try_parse
try_parse_found buf rest p e =
    (ground arith, ground arith, ground arith, ground arith, ground arith)

-- The packet that TryParse finds, it finds when more bytes have come.
pub try_parse_more :
    (buf rest ys : Bytes) (p : ParsedPacket)
    → try_parse buf ≡ (complete p, rest)
    → try_parse (buf ++ ys) ≡ (complete p, rest ++ ys)
try_parse_more buf rest ys p e =
    let (low, high, there, packet, left) = try_parse_found buf rest p e in
    let n = u16_at 0 buf in
    let same : u16_at 0 (buf ++ ys) ≡ n =
      ap₂ (λ lo hi. lo + 256 * hi) (byte_at-front 0 buf ys (omega arith))
        (byte_at-front 1 buf ys (omega arith)) in
    try_parse_complete (buf ++ ys) n same low high (omega (arith, length-append buf ys))
    ∙ ap₂ (λ q r. (complete q, r)) (packet_of-front n buf ys low there ∙ packet)
        (drop_front n buf ys there ∙ ap (λ r. r ++ ys) left)

-- What it refuses, it refuses then too.
pub try_parse_still_invalid :
    (buf ys : Bytes)
    → (try_parse buf).0 ≡ invalid_packet
    → (try_parse (buf ++ ys)).0 ≡ invalid_packet
unfolding try_parse
try_parse_still_invalid buf ys e =
    let enough : header_size ≤ length buf = ground arith in
    ground (
      arith,
      byte_at-front 0 buf ys (omega arith),
      byte_at-front 1 buf ys (omega arith),
      length-append buf ys,
    )

-- Without a packet the buffer stays.
pub try_parse_waits : (buf : Bytes) → (try_parse buf).0 ≡ need_more_data → (try_parse buf).1 ≡ buf
unfolding try_parse
try_parse_waits buf e = ground arith

-- A packet takes its header at least.
pub try_parse_shorter :
    (buf rest : Bytes) (p : ParsedPacket)
    → try_parse buf ≡ (complete p, rest)
    → length rest + header_size ≤ length buf
try_parse_shorter buf rest p e =
    let (low, high, there, packet, left) = try_parse_found buf rest p e in
    omega (arith, ap length left, length-drop (u16_at 0 buf) buf)

pub try_parse-nothing : (try_parse []).0 ≡ need_more_data
unfolding try_parse
try_parse-nothing = refl
