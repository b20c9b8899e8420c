-- ===== src/Map/Instance/Tests.antt =====
-- A map that one player enters and leaves.
use ll2games_rpg.Prelude.{◌≡◌, refl, true, some}
use ll2games_rpg.Map.Instance.{MapInstance, new_map, on_enter, on_leave, remove_map, update}
use ll2games_rpg.Map.Instance.Presence.{Reached, first, leaves, IsValid, Reached-IsValid}

abbrev pub left_map : MapInstance
left_map = on_leave 1000 5 (on_enter 5 77 (new_map true true 100000000))

left_map-Reached : Reached left_map
left_map-Reached = leaves 1000 5 (first true true 100000000 5 77)

Reached-IsValid_example : IsValid left_map
Reached-IsValid_example = Reached-IsValid left_map left_map-Reached

-- The id 100000000 is 57600 in 16 bits.
asks : (update 301000 left_map).1 ≡ some 57600
unfolding update remove_map on_leave on_enter new_map
asks = refl
