-- ===== src/Map/Manager/Tests.antt =====
-- A table with one map.
use ll2games_rpg.Prelude.{◌≡◌, refl, false, none, [], ◌∷◌, arith, if◌then◌else◌}
use ll2games_rpg.Prelude.Dict.{lookup}
use ll2games_rpg.Map.Instance.Tests.{left_map}
use ll2games_rpg.Map.Manager.{MapManager, get_or_create, init_data, remove_map}
use ll2games_rpg.Map.Manager.Removal.{requests, asked, remove_map_exact}

abbrev town : MapManager
town = record { maps = (100000000, left_map) ∷ []; maps_init_data = []; destroy_queue = [] }

no_such_map : get_or_create (λ id. none) false false 3 town ≡ (town, none)
unfolding get_or_create init_data
no_such_map = refl

remove_map_exact_example :
    (lookup 3 (remove_map (requests (65539 ∷ []) town)).maps
      ≡ (if asked 3 (65539 ∷ []) then none else lookup 3 town.maps))
    × (lookup 100000000 (remove_map (requests (100000000 ∷ 65539 ∷ []) town)).maps
        ≡ lookup 100000000 town.maps)
remove_map_exact_example = remove_map_exact 3 100000000 (65539 ∷ []) town refl (omega arith)
