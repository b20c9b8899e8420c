-- ===== src/PlayerService/Names.antt =====
-- Which players GetPlayer finds by a name.
use ll2games_rpg.Prelude.{ℕ, ◌^◌, ◌≤◌, ◌<◌, ◌≡◌, ◌≢◌, Option, none, some, List, option_cases, arith}
use ll2games_rpg.Prelude.Dict.{Dict, lookup}
use ll2games_rpg.Database.Statement.{Fetched, Answers, Handles, open_query, first_row}
use ll2games_rpg.PlayerService.{get_player_by_name}

-- A player that is in the table once, under an id of 65536 or more, is not found by a name, whatever the
-- database answers: the library writes two bytes of the id, and the look-up takes these for the id.
pub far_player_not_found :
    {P : Type 0} (narrow : ℕ → ℕ) (a : Answers) (rows : List (Fetched ℕ)) (players : Dict P)
    (h : Handles) (id : ℕ) (player : P)
    → ((n : ℕ) → narrow n < 2 ^ 16)
    → 2 ^ 16 ≤ id
    → ((j : ℕ) → lookup j players ≡ some player → j ≡ id)
    → (get_player_by_name narrow a rows players h).1 ≢ some player
unfolding get_player_by_name
far_player_not_found narrow a rows players h id player narrows far once =
    option_cases (λ (o : Handles × Option _). o.1 ≢ some player) (open_query a h).1
      (λ refused. none_ne)
      (λ conn opened.
        option_cases (λ (o : Handles × Option _). o.1 ≢ some player) (first_row rows)
          (λ no_row. none_ne)
          (λ char_id fetched found.
            let same = once (narrow char_id) found in
            let small = narrows char_id in absurd (omega arith)))
  where
    none_ne : none ≢ some player
    none_ne e = cc
