-- ===== src/Map/Manager.antt =====
-- SERVER/src/CHANNEL/map/MapManager.cpp: the table of the maps, and the queue of those to destroy,
-- a `std::queue<uint16_t>`. Reading a map's file is the parameter `load`, which knows a map's data
-- by its id, or none.
pub mod Removal
mod Tests
use ll2games_rpg.Prelude.{ℕ, ◌%◌, ◌^◌, Bool, Option, none, some, List, [], ◌∷◌, ◌++◌}
use ll2games_rpg.Prelude.Dict.{Dict, lookup, insert, erase}
use ll2games_rpg.Map.Instance.{MapInstance, new_map}

-- What the code reads of a MapInitData.
pub record MapInitData : Type 0 where
  pub map_id : ℕ

pub record MapManager : Type 0 where
  pub maps : Dict MapInstance
  pub maps_init_data : Dict MapInitData
  pub destroy_queue : List ℕ

-- The data that was read when the server started, else the file.
unfoldable pub init_data : (ℕ → Option MapInitData) → ℕ → MapManager → Option MapInitData
init_data load map_id mm = elim (lookup map_id mm.maps_init_data) [
  | some data_read ↦ some data_read
  | none ↦ load map_id
]

-- The table with the map, and the map. The flags are what the constructor finds in the memory.
unfoldable pub get_or_create :
    (ℕ → Option MapInitData) → Bool → Bool → ℕ → MapManager → MapManager × Option MapInstance
get_or_create load has_player destroy_requested map_id mm = elim (lookup map_id mm.maps) [
  | some map ↦ (mm, some map)
  | none ↦ elim (init_data load map_id mm) [
    | none ↦ (mm, none)
    | some map_data ↦
        let map = new_map has_player destroy_requested map_data.map_id in
        (record mm { maps = insert map_id map mm.maps }, some map)
  ]
]

-- The callback of a map: `push` narrows the `int` to a `uint16_t`.
pub destroy_request : ℕ → MapManager → MapManager
destroy_request id mm = record mm { destroy_queue = mm.destroy_queue ++ (id % 2 ^ 16) ∷ [] }

pub remove_ids : List ℕ → Dict MapInstance → Dict MapInstance
remove_ids [] maps = maps
remove_ids (map_id ∷ queue) maps = elim (lookup map_id maps) [
  | none ↦ remove_ids queue maps
  | some map ↦ remove_ids queue (erase map_id maps)
]

-- RemoveMap, which empties the queue.
pub remove_map : MapManager → MapManager
remove_map mm = record mm { maps = remove_ids mm.destroy_queue mm.maps; destroy_queue = [] }
