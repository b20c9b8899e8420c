-- ===== src/Trade/Sessions/Tests.antt =====
-- Calls of the trade service for the players 1 and 2.
use ll2games_rpg.Prelude.{ℕ, ◌*◌, true, false, none, some, [], ◌∷◌, arith}
use ll2games_rpg.Prelude.Int.{pos}
use ll2games_rpg.Trade.{TradeItem, Player, TradeSession}
use ll2games_rpg.Trade.Memory.{memory}
use ll2games_rpg.Trade.Sessions.{Sessions, Service}
use ll2games_rpg.Trade.Sessions.Invariant.{IsValid}
use ll2games_rpg.Trade.Sessions.Lifecycle.{starts, uploads, readies, cancels, run, Good, run-Good}

abbrev player : ℕ → Player
player n = record { address = 100 * n; id = n; alive = true; map = some 3 }

abbrev no_sessions : Sessions
no_sessions = record { table = []; heap = []; next = 0 }

no_sessions-IsValid : IsValid no_sessions
no_sessions-IsValid = record { points = λ k p e. ground arith; below = λ p t e. ground arith }

abbrev service : Sessions → Service memory
service s = record { sessions = s; pool = 31 ∷ []; db = record { now = []; before = [] } }

abbrev potion : TradeItem
potion = record { id = 7; is_number = true; item_type = pos 1; amount = pos 3; slot_index = pos 0 }

run-Good_example : Good (
    run memory (service no_sessions) (
      starts (some (player 1)) (some (player 2))
      ∷ uploads (some (player 1)) potion
      ∷ readies (some (player 3))
      ∷ uploads (some (player 3)) potion
      ∷ readies (some (player 1))
      ∷ cancels none
      ∷ readies (some (player 2))
      ∷ cancels (some (player 1))
      ∷ []))
run-Good_example =
    run-Good memory (service no_sessions)
      (starts (some (player 1)) (some (player 2))
        ∷ uploads (some (player 1)) potion
        ∷ readies (some (player 3))
        ∷ uploads (some (player 3)) potion
        ∷ readies (some (player 1))
        ∷ cancels none
        ∷ readies (some (player 2))
        ∷ cancels (some (player 1))
        ∷ [])
      no_sessions-IsValid

abbrev traded : TradeSession
traded = record {
  a_player = 100;
  b_player = 200;
  a_id = 1;
  b_id = 2;
  a_ready = false;
  b_ready = false;
  a_items = potion ∷ [];
  b_items = [];
}

abbrev one_session : Sessions
one_session = record { table = (1, some 0) ∷ (2, some 0) ∷ []; heap = (0, traded) ∷ []; next = 1 }
