-- ===== src/Packet/Tests.antt =====
-- Runs of the packet parser on a packet with one field.
use ll2games_rpg.Prelude.{ℕ, zero, suc, ◌<◌, ◌≡◌, some, [], ◌∷◌, arith, length, All}
use ll2games_rpg.Packet.{Bytes, make_body, value, parse_length_prefixed_string}
use ll2games_rpg.Packet.Fields.{make_body-parse}

abbrev body : Bytes
body = 2 ∷ 0 ∷ 104 ∷ 105 ∷ []

make_body-parse_example :
    parse_length_prefixed_string
      (some (make_body ((1 ∷ []) ∷ (104 ∷ 105 ∷ []) ∷ [])))
      (length (make_body ((1 ∷ []) ∷ [])))
    ≡ (value (104 ∷ 105 ∷ []), 7)
unfolding make_body
make_body-parse_example = make_body-parse ((1 ∷ []) ∷ []) [] (104 ∷ 105 ∷ []) (omega arith)

abbrev ones : ℕ → Bytes
ones zero = []
ones (suc n) = 1 ∷ ones n

ones-small : (n : ℕ) → All (λ b. b < 256) (ones n)
ones-small zero = tt
ones-small (suc n) = (omega arith, ones-small n)
