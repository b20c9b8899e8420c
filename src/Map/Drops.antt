-- ===== src/Map/Drops.antt =====
-- SERVER/src/CHANNEL/map/MapInstance.cpp: the items on the ground of a map, from the drop of a killed
-- monster to the player who picks one up or to its end. Positions are floats and are left out: the
-- answer of `CanPickupByDistance` is an argument. A player is told by its id. All times of one call
-- are one reading of the clock, in milliseconds.
pub mod Pickup
pub mod Owner
mod Tests
use ll2games_rpg.Prelude.{
  ℕ, ◌+◌, Bool, true, false, not, ◌&&◌, Option, none, some, List, [], ◌∷◌, ◌==◌, leb, if◌then◌else◌,
}
use ll2games_rpg.Prelude.Int.{ℤ}
use ll2games_rpg.Prelude.Dict.{Dict, lookup, insert, erase}
use ll2games_rpg.Inventory.{AddItemResult}
use ll2games_rpg.InventoryManager.{Items, Inventories}
use ll2games_rpg.InventoryManager
use ll2games_rpg.Drop.{DropType, DropResult}

pub record DropItems : Type 0 where
  pub drop_id : ℕ
  pub drop_type : DropType
  pub item_id : ℕ
  pub count : ℤ
  pub expire_time_ms : ℕ
  pub owner_expire_time_ms : ℕ
  pub owner : Option ℕ

-- `m_dropItems` and `m_dropId`.
pub record Ground : Type 0 where
  pub drop_items : Dict DropItems
  pub drop_id : ℕ

-- What one round of `SpawnDropItem` puts down.
pub dropped : Option ℕ → ℕ → ℕ → DropResult → DropItems
dropped owner now id r = record {
  drop_id = id;
  drop_type = r.drop_type;
  item_id = r.item_id;
  count = r.count;
  expire_time_ms = now + 120000;
  owner_expire_time_ms = now + 60000;
  owner = owner;
}

-- The owner is the monster's last attacker.
pub spawn_drop_item : Option ℕ → ℕ → List DropResult → Ground → Ground
spawn_drop_item owner now [] g = g
spawn_drop_item owner now (r ∷ drops) g = spawn_drop_item owner now drops (record {
  drop_items = insert g.drop_id (dropped owner now g.drop_id r) g.drop_items;
  drop_id = g.drop_id + 1;
})

-- Another player owns it.
pub owned_by_other : ℕ → DropItems → Bool
owned_by_other player_id d = elim d.owner [ none ↦ false | some id ↦ not (id == player_id) ]

pub record Picked : Type 0 where
  pub ground : Ground
  pub inventories : Inventories
  pub results : List AddItemResult
  pub picked : Bool

-- What `AddItem` has put into the player's inventories stays there, whatever it answers.
pub take_drop : Items → ℕ → DropItems → Inventories → List AddItemResult → Ground → Picked
take_drop items drop_item_id d ms results g =
    let out = InventoryManager.add_item items d.item_id d.count results ms in
    record {
      ground = if out.added then record g { drop_items = erase drop_item_id g.drop_items } else g;
      inventories = out.inventories;
      results = out.results;
      picked = out.added;
    }

abbrev refused : Inventories → List AddItemResult → Ground → Picked
refused ms results g = record { ground = g; inventories = ms; results = results; picked = false }

-- `none` is the null player.
pub pickup_drop_item :
    Items → Bool → Option ℕ → ℕ → Inventories → List AddItemResult → Ground → Picked
pickup_drop_item items in_reach none drop_item_id ms results g = refused ms results g
pickup_drop_item items in_reach (some player_id) drop_item_id ms results g =
    elim (lookup drop_item_id g.drop_items) [
      | none ↦ refused ms results g
      | some d ↦
          if not in_reach
          then refused ms results g
          else if owned_by_other player_id d
          then refused ms results g
          else take_drop items drop_item_id d ms results g
    ]

-- The first `if` of the loop in `CheckDropItem`.
pub release : ℕ → DropItems → DropItems
release now d = elim d.owner [
  | none ↦ d
  | some id ↦ if leb d.owner_expire_time_ms now then record d { owner = none } else d
]

-- What stays, and the ids that are reported as removed.
pub check_items : ℕ → Dict DropItems → Dict DropItems × List ℕ
check_items now [] = ([], [])
check_items now ((k, d) ∷ items) =
    let (kept, removed) = check_items now items in
    if leb d.expire_time_ms now
    then (kept, d.drop_id ∷ removed)
    else ((k, release now d) ∷ kept, removed)

pub check_drop_item : ℕ → Ground → Ground × List ℕ
check_drop_item now g =
    let (kept, removed) = check_items now g.drop_items in (record g { drop_items = kept }, removed)
