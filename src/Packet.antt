-- ===== src/Packet.antt =====
-- SERVER/src/COMMON/packet/PacketParser.cpp, with the header of SERVER/include/COMMON/packet/Packet.h.
-- A `char` is its byte, a number below 256; two-byte numbers are stored with the low byte first.
pub mod Stream
pub mod Prefix
pub mod Fields
mod Tests
use ll2games_rpg.Prelude.{
  ℕ, zero, suc, ◌+◌, ◌-◌, ◌*◌, ◌/◌, ◌%◌, Bool, true, false, Option, none, some, List, [], ◌∷◌, ◌++◌,
  ◌==◌, ◌&&◌, ltb, leb, length, take, drop, if◌then◌else◌,
}

abbrev pub Bytes : Type 0
Bytes = List ℕ

abbrev pub buffer_size : ℕ
buffer_size = 1024

abbrev pub header_size : ℕ
header_size = 4

-- A byte of memory; the callers ask for bytes that are there.
abbrev pub byte_at : ℕ → Bytes → ℕ
byte_at n [] = 0
byte_at zero (b ∷ bs) = b
byte_at (suc n) (b ∷ bs) = byte_at n bs

-- A uint16_t in memory.
abbrev pub u16 : ℕ → Bytes
u16 n = n % 256 ∷ n / 256 % 256 ∷ []

abbrev pub u16_at : ℕ → Bytes → ℕ
u16_at n bs = byte_at n bs + 256 * byte_at (suc n) bs

pub record ParsedPacket : Type 0 where
  pub type_id : ℕ
  pub payload : Bytes

pub data ParseResult : Type 0 where
  need_more_data invalid_packet : ParseResult
  complete : ParsedPacket → ParseResult

pub packet_of : ℕ → Bytes → ParsedPacket
packet_of pkt_len buf = record {
  type_id = u16_at 2 buf;
  payload = take (pkt_len - header_size) (drop header_size buf);
}

-- `none` is `std::nullopt`.
pub parse : Bytes → Option ParsedPacket × Bytes
parse buf =
    if ltb (length buf) header_size
    then (none, buf)
    else if ltb (length buf) (u16_at 0 buf)
    then (none, buf)
    else (some (packet_of (u16_at 0 buf) buf), drop (u16_at 0 buf) buf)

pub try_parse : Bytes → ParseResult × Bytes
try_parse buf =
    if ltb (length buf) header_size
    then (need_more_data, buf)
    else if ltb (u16_at 0 buf) header_size
    then (invalid_packet, buf)
    else if ltb buffer_size (u16_at 0 buf)
    then (invalid_packet, buf)
    else if ltb (length buf) (u16_at 0 buf)
    then (need_more_data, buf)
    else (complete (packet_of (u16_at 0 buf) buf), drop (u16_at 0 buf) buf)

-- The texts of `errMsg`, or `outValue`.
pub data Field : Type 0 where
  payload_empty offset_overflow length_overflow : Field
  value : Bytes → Field

-- Where the value starts: after the length byte, and after the next byte if that is 0.
unfoldable pub value_start : ℕ → Bytes → ℕ
value_start offset payload =
    if ltb (suc offset) (length payload) && byte_at (suc offset) payload == 0
    then suc (suc offset)
    else suc offset

-- The result, and `offset` afterwards. A payload that is not there is `none`.
unfoldable pub parse_length_prefixed_string : Option Bytes → ℕ → Field × ℕ
parse_length_prefixed_string none offset = (payload_empty, offset)
parse_length_prefixed_string (some payload) offset =
    if length payload == 0
    then (payload_empty, offset)
    else if leb (length payload) offset
    then (offset_overflow, offset)
    else if ltb (length payload) (value_start offset payload + byte_at offset payload)
    then (length_overflow, value_start offset payload)
    else (
      value (take (byte_at offset payload) (drop (value_start offset payload) payload)),
      value_start offset payload + byte_at offset payload,
    )

-- The length of each field is cut to a uint16_t.
pub make_body : List Bytes → Bytes
make_body [] = []
make_body (field ∷ fields) = u16 (length field) ++ field ++ make_body fields

unfoldable pub make_packet : ℕ → Bytes → Bytes
make_packet type_id body = u16 (header_size + length body) ++ u16 type_id ++ body
