-- ===== src/Map/Instance.antt =====
-- SERVER/src/CHANNEL/map/MapInstance.{h,cpp}: entering and leaving a map, and its request to be
-- destroyed. `m_playerCount` and `m_mapID` are `uint16_t` and wrap; times are milliseconds.
pub mod Presence
pub mod Tests
use ll2games_rpg.Prelude.{
  ℕ, ◌+◌, ◌-◌, ◌*◌, ◌%◌, ◌^◌, Bool, true, false, not, ◌&&◌, Option, none, some, List, [], ◌∷◌, ◌==◌,
  leb, if◌then◌else◌,
}
use ll2games_rpg.Prelude.Dict.{Dict, lookup, insert, erase}

-- A player is told by its address.
pub record MapInstance : Type 0 where
  pub player_list : Dict ℕ
  pub player_count : ℕ
  pub has_player : Bool
  pub destroy_requested : Bool
  pub empty_time : ℕ
  pub map_id : ℕ

-- MAPDELETELIMIT, 5 minutes.
abbrev pub limit : ℕ
limit = 5 * 60 * 1000

-- The constructor and Init. The constructor leaves the two flags uninitialised: they are
-- arguments here, for the values that stand in the memory.
unfoldable pub new_map : Bool → Bool → ℕ → MapInstance
new_map has_player destroy_requested data_map_id = record {
  player_list = [];
  player_count = 0;
  has_player = has_player;
  destroy_requested = destroy_requested;
  empty_time = 0;
  map_id = data_map_id % 2 ^ 16;
}

abbrev awake : MapInstance → MapInstance
awake m = record m { has_player = true; destroy_requested = false; empty_time = 0 }

unfoldable pub on_enter : ℕ → ℕ → MapInstance → MapInstance
on_enter player_id player m = elim (lookup player_id m.player_list) [
  | some old ↦ m
  | none ↦
      let m' = if m.player_count == 0 then awake m else m in
      record m' {
        player_list = insert player_id player m.player_list;
        player_count = (m.player_count + 1) % 2 ^ 16;
      }
]

-- The count is lowered modulo 2 ^ 16.
unfoldable pub on_leave : ℕ → ℕ → MapInstance → MapInstance
on_leave now player_id m = elim (lookup player_id m.player_list) [
  | none ↦ m
  | some player ↦
      let left = record m {
        player_list = erase player_id m.player_list;
        player_count = (m.player_count + 2 ^ 16 - 1) % 2 ^ 16;
      } in
      if left.player_count == 0
      then record left { empty_time = now; has_player = false; destroy_requested = false }
      else left
]

-- RemoveMap: the id that the callback is given, if it is called.
pub remove_map : ℕ → MapInstance → MapInstance × Option ℕ
remove_map now m =
    if not m.destroy_requested && leb limit (now - m.empty_time)
    then (record m { destroy_requested = true }, some m.map_id)
    else (m, none)

-- Update, as far as it concerns the destruction: with a player in the map it goes on with the monsters.
pub update : ℕ → MapInstance → MapInstance × Option ℕ
update now m = if not m.has_player then remove_map now m else (m, none)
