-- ===== src/Map/Portal/Tests.antt =====
-- A player who goes from one map to another.
use ll2games_rpg.Prelude.{◌≡◌, refl, false, none, some, [], ◌∷◌}
use ll2games_rpg.Prelude.Dict.{lookup}
use ll2games_rpg.Map.Instance.{MapInstance, new_map, on_enter}
use ll2games_rpg.Map.Manager.{get_or_create, init_data}
use ll2games_rpg.Map.Portal.{Visitor, Places, left, handle_portal_use, null_map}
use ll2games_rpg.Map.Portal.Behind.{through_and_out, portal_leaves_behind}

-- Map 1 with player 7 in it, whose object is at the address 900.
abbrev village : MapInstance
village = on_enter 7 900 (new_map false false 1)

abbrev walker : Visitor
walker = record { address = 900; current_map = some 1 }

abbrev game : Places
game = record {
  manager = record { maps = (1, village) ∷ []; maps_init_data = []; destroy_queue = [] };
  players = (7, walker) ∷ [];
}

no_such_map : handle_portal_use (λ id. none) false false 7 2 game ≡ null_map
unfolding handle_portal_use get_or_create init_data
no_such_map = refl

portal_leaves_behind_example :
    (s' : Places) × (through_and_out (λ id. some (record { map_id = id })) false false 50 7 2 game
      ≡ left s')
    × (lookup 7 s'.players ≡ none)
    × (m' : MapInstance) × (lookup 1 s'.manager.maps ≡ some m')
    × (lookup 7 m'.player_list ≡ some 900)
unfolding get_or_create init_data new_map on_enter
portal_leaves_behind_example =
    portal_leaves_behind (λ id. some (record { map_id = id })) false false 50 7 1 2 walker village
      (new_map false false 2) game refl refl refl refl refl
