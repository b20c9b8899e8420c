-- ===== src/Map/Portal.antt =====
-- SERVER/src/CHANNEL/service/MapService.cpp, and what the destructor of
-- SERVER/src/CHANNEL/app/ChannelSession.cpp does for the map: how a player changes maps and leaves the
-- game.
pub mod Behind
mod Tests
use ll2games_rpg.Prelude.{ℕ, Bool, Option, none, some}
use ll2games_rpg.Prelude.Dict.{Dict, lookup, insert, erase}
use ll2games_rpg.Map.Instance.{MapInstance, on_enter, on_leave}
use ll2games_rpg.Map.Manager.{MapInitData, MapManager, get_or_create}

-- A player of PlayerManager: its address and the id of the map that `m_current_map` points to.
pub record Visitor : Type 0 where
  pub address : ℕ
  pub current_map : Option ℕ

pub record Places : Type 0 where
  pub manager : MapManager
  pub players : Dict Visitor

-- `failed` is EXIT_FAILURE, `null_map` is the call of OnEnter on a null pointer.
pub data Portal : Type 0 where
  failed null_map : Portal
  entered : Places → Portal

pub handle_portal_use : (ℕ → Option MapInitData) → Bool → Bool → ℕ → ℕ → Places → Portal
handle_portal_use load has_player destroy_requested player_id map_id s =
    elim (lookup player_id s.players) [
      | none ↦ failed
      | some v ↦
          let (manager, found) = get_or_create load has_player destroy_requested map_id s.manager in
          elim found [
            | none ↦ null_map
            | some map ↦ entered (record {
              manager = record manager {
                maps = insert map_id (on_enter player_id v.address map) manager.maps;
              };
              players = insert player_id (record v { current_map = some map_id }) s.players;
            })
          ]
    ]

-- `freed` is the call of OnLeave on a map that was destroyed.
pub data Left : Type 0 where
  freed : Left
  left : Places → Left

-- The destructor of the player's session, with the time of the call.
pub leave_game : ℕ → ℕ → Places → Left
leave_game now player_id s = elim (lookup player_id s.players) [
  | none ↦ left s
  | some v ↦ elim v.current_map [
    | none ↦ left (record s { players = erase player_id s.players })
    | some map_id ↦ elim (lookup map_id s.manager.maps) [
      | none ↦ freed
      | some map ↦ left (record {
        manager = record s.manager {
          maps = insert map_id (on_leave now player_id map) s.manager.maps;
        };
        players = erase player_id s.players;
      })
    ]
  ]
]
