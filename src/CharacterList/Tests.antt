-- ===== src/CharacterList/Tests.antt =====
-- An account with two characters, whose list is asked for twice.
use mathlib.Core.List.{Perm}
use mathlib.Core.List.Perm
use ll2games_rpg.Prelude.{◌≡◌, refl, true, false, some, none, List, [], ◌∷◌, map, arith}
use ll2games_rpg.Prelude.Int.{ℤ, pos, negsuc}
use ll2games_rpg.Packet.{Bytes}
use ll2games_rpg.Database.Pool.{get_connection}
use ll2games_rpg.Database.Statement.{row, fetch_error, Answers, Handles, open_query}
use ll2games_rpg.CharacterList.{CharRow, Redis, live, summary}
use ll2games_rpg.CharacterList.Cached.{values, asks, read_rows, list_again}

-- One letter for each number.
abbrev letter : ℤ → Bytes
letter (pos n) = n ∷ []
letter (negsuc n) = 45 ∷ n ∷ []

abbrev fine : Answers
fine = record {
  init = true;
  prepare = true;
  bind_param = true;
  execute = true;
  bind_result = true;
  store_result = true;
}

abbrev bowman : CharRow
bowman = record { char_id = 12; name = some (66 ∷ []); level = pos 7; job = pos 3 }

abbrev novice : CharRow
novice = record { char_id = 4; name = none; level = pos 1; job = pos 0 }

abbrev idle : Handles
idle = record { pool = 5 ∷ 6 ∷ []; statements = 0 }

abbrev opened : Handles
opened = record { pool = 6 ∷ []; statements = 1 }

-- The second time nothing would work in the database.
list_again_example :
    (first : Handles × Redis × List Bytes) × (asks letter
        (λ id. (true, true))
        (λ id. refl)
        9
        (λ d. some (values d))
        (λ d. (values d, refl, Perm.refl (values d)))
        1000
        fine
        (row bowman ∷ row novice ∷ fetch_error ∷ [])
        (idle, [])
      ≡ first)
    × (first.2 ≡ map (summary letter) (bowman ∷ novice ∷ []))
    × (l : List Bytes) × (asks letter
          (λ id. (true, true))
          (λ id. refl)
          9
          (λ d. some (values d))
          (λ d. (values d, refl, Perm.refl (values d)))
          1299
          (record fine { init = false })
          []
          (first.0, first.1)
        ≡ (first.0, first.1, l))
    × Perm l first.2
unfolding open_query read_rows live get_connection
list_again_example =
    list_again letter (λ id. (true, true)) (λ id. refl) 9 (λ d. some (values d))
      (λ d. (values d, refl, Perm.refl (values d))) fine (record fine { init = false }) bowman
      (novice ∷ []) (row bowman ∷ row novice ∷ fetch_error ∷ []) [] idle opened 5 [] 1000 1299
      (omega arith) refl refl refl (refl, (refl, tt))
