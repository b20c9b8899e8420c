-- ===== src/Packet/Fields.antt =====
-- The fields of a payload: MakeBody writes a two-byte length, and ParseLengthPrefixedString reads
-- one byte and a zero byte behind it.
use ll2games_rpg.Prelude.{
  ℕ, zero, suc, ◌+◌, ◌-◌, ◌≤◌, ◌<◌, ◌≡◌, ◌≢◌, refl, ◌∙◌, ap, ap₂, sym, some, List, [], ◌∷◌, ◌++◌,
  arith, length, take, drop, length-append, length-take, length-drop, take-append, All,
}
use mathlib.Core.List.{append_assoc}
use ll2games_rpg.Packet.{
  Bytes, u16, byte_at, value, value_start, parse_length_prefixed_string, make_body,
}

-- The guards that a successful read has passed.
abbrev Read : Bytes → ℕ → ℕ → Bytes → Type 0
Read payload offset end v =
    (offset < value_start offset payload)
    × (value_start offset payload ≤ suc (suc offset))
    × (value_start offset payload + byte_at offset payload ≤ length payload)
    × (end ≡ value_start offset payload + byte_at offset payload)
    × (v ≡ take (byte_at offset payload) (drop (value_start offset payload) payload))

-- A value that is read lies inside the payload, and the offset moves on to its end.
pub field_in_bounds :
    (payload : Bytes) (offset end : ℕ) (v : Bytes)
    → parse_length_prefixed_string (some payload) offset ≡ (value v, end)
    → (offset < end)
      × (end ≤ length payload)
      × (length v ≡ byte_at offset payload)
      × (v ≡ take (length v) (drop (end - length v) payload))
unfolding parse_length_prefixed_string value_start
field_in_bounds payload offset end v e =
    let read : Read payload offset end v = ground arith in
    let (start, low, bound, is_end, is_v) = read in
    let size : length v ≡ byte_at offset payload =
      ap length is_v
      ∙ length-take (byte_at offset payload) (drop (value_start offset payload) payload)
      ∙ omega (arith, length-drop (value_start offset payload) payload) in
    (
      omega arith,
      omega arith,
      size,
      is_v ∙ ap₂ (λ n k. take n (drop k payload)) (sym size) (omega arith),
    )

byte_at-append : (pre bs : Bytes) (i : ℕ) → byte_at (length pre + i) (pre ++ bs) ≡ byte_at i bs
byte_at-append [] bs i = ap (λ n. byte_at n bs) (omega arith)
byte_at-append (b ∷ pre) bs i =
    let step : suc (length pre) + i ≡ suc (length pre + i) = omega arith in
    ap (λ n. byte_at n (b ∷ pre ++ bs)) step ∙ byte_at-append pre bs i

drop-past : (pre bs : Bytes) (i : ℕ) → drop (length pre + i) (pre ++ bs) ≡ drop i bs
drop-past [] bs i = ap (λ n. drop n bs) (omega arith)
drop-past (b ∷ pre) bs i =
    let step : suc (length pre) + i ≡ suc (length pre + i) = omega arith in
    ap (λ n. drop n (b ∷ pre ++ bs)) step ∙ drop-past pre bs i

make_body-append : (xs ys : List Bytes) → make_body (xs ++ ys) ≡ make_body xs ++ make_body ys
unfolding make_body
make_body-append [] ys = refl
make_body-append (x ∷ xs) ys =
    ap (λ (b : Bytes). u16 (length x) ++ x ++ b) (make_body-append xs ys)
    ∙ sym (append_assoc (u16 (length x) ++ x) (make_body xs) (make_body ys))

parse_at :
    (payload : Bytes) (offset n : ℕ) (v : Bytes)
    → byte_at offset payload ≡ n
    → byte_at (suc offset) payload ≡ 0
    → suc (suc (offset + n)) ≤ length payload
    → take n (drop (suc (suc offset)) payload) ≡ v
    → parse_length_prefixed_string (some payload) offset ≡ (value v, suc (suc (offset + n)))
unfolding parse_length_prefixed_string value_start
parse_at payload offset n v a b c d =
    let start : value_start offset payload ≡ suc (suc offset) = ground arith in
    let is_v : take (byte_at offset payload) (drop (value_start offset payload) payload) ≡ v =
      ap₂ (λ k m. take k (drop m payload)) a start ∙ d in
    ground arith

-- A field of less than 256 bytes is read back from any place in a body that MakeBody made, whatever
-- stands around it, and the offset moves to the field behind it.
pub make_body-parse :
    (before after : List Bytes) (v : Bytes)
    → length v < 256
    → parse_length_prefixed_string
        (some (make_body (before ++ v ∷ after)))
        (length (make_body before))
      ≡ (value v, suc (suc (length (make_body before) + length v)))
unfolding make_body
make_body-parse before after v h =
    let pre = make_body before in
    let payload = make_body (before ++ v ∷ after) in
    let tail = u16 (length v) ++ v ++ make_body after in
    let split : payload ≡ pre ++ tail = make_body-append before (v ∷ after) in
    let two : suc (suc (length pre)) ≡ length pre + 2 = omega arith in
    let size : length payload ≡ length pre + suc (suc (length v + length (make_body after))) =
      ap length split ∙ length-append pre tail ∙ omega (arith, length-append v (make_body after)) in
    parse_at payload (length pre) (length v) v
      (ap₂ byte_at (omega arith) split ∙ byte_at-append pre tail 0 ∙ (omega arith))
      (ap₂ byte_at (omega arith) split ∙ byte_at-append pre tail 1 ∙ (omega arith))
      (omega (arith, size))
      (ap₂ (λ n bs. take (length v) (drop n bs)) two split
        ∙ ap (take (length v)) (drop-past pre tail 2)
        ∙ take-append v (make_body after))

byte_at-small : (i : ℕ) (bs : Bytes) → All (λ b. b < 256) bs → byte_at i bs < 256
byte_at-small i [] h = omega arith
byte_at-small zero (b ∷ bs) (small, h) = small
byte_at-small (suc i) (b ∷ bs) (small, h) = byte_at-small i bs h

-- A field of 256 bytes or more, though MakeBody writes it, is never what ParseLengthPrefixedString
-- reads, at any offset of any payload of bytes.
pub long_field_lost :
    (payload : Bytes) (offset end : ℕ) (v : Bytes)
    → All (λ b. b < 256) payload
    → 256 ≤ length v
    → parse_length_prefixed_string (some payload) offset ≢ (value v, end)
long_field_lost payload offset end v bytes long e =
    let (_, _, size, _) = field_in_bounds payload offset end v e in
    omega (arith, size, byte_at-small offset payload bytes)
