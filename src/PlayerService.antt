-- ===== src/PlayerService.antt =====
-- SERVER/src/CHANNEL/db/PlayerService.cpp: what is loaded when a player logs in, and
-- PlayerManager::GetPlayer by a name, which runs its query in the same way. The answers of the MySQL C
-- API are arguments, as in Database/Statement.
pub mod Returned
pub mod Items
pub mod Names
mod Tests
use ll2games_rpg.Prelude.{
  ℕ, zero, suc, ◌+◌, ◌-◌, ◌%◌, ◌^◌, Bool, true, false, not, Option, none, some, List, [], ◌∷◌,
  if◌then◌else◌, ◌>>=◌,
}
use ll2games_rpg.Prelude.Int.{ℤ, pos}
use ll2games_rpg.Prelude.Dict.{Dict, lookup, insert}
use ll2games_rpg.Database.Pool.{Pool, get_connection, release_connection}
use ll2games_rpg.Database.Statement.{
  Fetched, row, truncated, fetch_error, Answers, Handles, release, close, open_query, with_query,
  first_row,
}
use ll2games_rpg.Inventory.{InventoryMetaInfo, Inventory, set_slot_item}
use ll2games_rpg.InventoryManager.{Inventories, create_inventory, get_inventory}
use ll2games_rpg.QuickSlot.{QuickSlotData, Slots, set_slot, set_slot_type}
use ll2games_rpg.Stat.{get_need_exp}

-- The loop of LoadInventoryMeta: whatever is neither a row nor the end is an error.
pub meta_rows : List (Fetched InventoryMetaInfo) → Inventories → Inventories × Bool
meta_rows [] ms = (ms, true)
meta_rows (row meta ∷ rows) ms = meta_rows rows (create_inventory meta ms).0
meta_rows (truncated meta ∷ rows) ms = (ms, false)
meta_rows (fetch_error ∷ rows) ms = (ms, false)

-- `ms` is `none` for a null InventoryManager.
pub load_inventory_meta :
    Answers
    → List (Fetched InventoryMetaInfo)
    → Handles × Option Inventories
    → Handles × Option Inventories × Bool
load_inventory_meta a rows (h, none) = (h, none, false)
load_inventory_meta a rows (h, some ms) =
    let (h', ms', success) = with_query a (meta_rows rows) (h, ms) in (h', some ms', success)

-- A row of character_inventory. The type is fetched into one byte of an `int` that holds 0.
pub record ItemRow : Type 0 where
  pub inventory_type : ℕ
  pub slot_pos : ℕ
  pub item_id : ℕ
  pub item_count : ℤ

pub load_row : ItemRow → Inventories → Option Inventories
load_row r ms = elim (get_inventory (r.inventory_type % 2 ^ 8) ms) [
  | none ↦ none
  | some inventory ↦ some (
      insert (r.inventory_type % 2 ^ 8) (set_slot_item inventory r.slot_pos r.item_id r.item_count)
        ms)
]

-- The loop of LoadInventory: an error of the fetch ends it as the last row does.
pub item_rows : List (Fetched ItemRow) → Inventories → Inventories × Bool
item_rows [] ms = (ms, true)
item_rows (row r ∷ rows) ms = elim (load_row r ms) [
  | none ↦ (ms, false)
  | some ms' ↦ item_rows rows ms'
]
item_rows (truncated r ∷ rows) ms = elim (load_row r ms) [
  | none ↦ (ms, false)
  | some ms' ↦ item_rows rows ms'
]
item_rows (fetch_error ∷ rows) ms = (ms, true)

pub load_inventory :
    Answers
    → List (Fetched ItemRow)
    → Handles × Option Inventories
    → Handles × Option Inventories × Bool
load_inventory a rows (h, none) = (h, none, false)
load_inventory a rows (h, some ms) =
    let (h', ms', success) = with_query a (item_rows rows) (h, ms) in (h', some ms', success)

-- LoadLearnedSkill, on `m_learnedSkills`: a skill id with its level.
pub skill_rows : List (Fetched (ℕ × ℕ)) → Dict ℕ → Dict ℕ × Bool
skill_rows [] skills = (skills, true)
skill_rows (row (id, level) ∷ rows) skills = skill_rows rows (insert id level skills)
skill_rows (truncated (id, level) ∷ rows) skills = skill_rows rows (insert id level skills)
skill_rows (fetch_error ∷ rows) skills = (skills, true)

pub load_learned_skill :
    Answers → List (Fetched (ℕ × ℕ)) → Handles × Dict ℕ → Handles × Dict ℕ × Bool
load_learned_skill a rows = with_query a (skill_rows rows)

-- A row of character_skill_slot. `none` stands for a column that cannot be read: a null pointer for
-- `atoi` in the first three, and a text for which `std::stoi` throws, or a null one, in the last two.
pub record SlotRow : Type 0 where
  pub slot_index : Option ℤ
  pub slot_type : Option ℕ
  pub ref_id : Option ℤ
  pub inventory_type : Option ℤ
  pub inventory_slot_pos : Option ℤ

unfoldable pub slot_data : SlotRow → Option QuickSlotData
slot_data r = do
  slot_index ← r.slot_index
  slot_type ← r.slot_type
  ref_id ← r.ref_id
  inventory_type ← r.inventory_type
  inventory_slot_pos ← r.inventory_slot_pos
  some (record {
    slot_index = slot_index;
    slot_type = set_slot_type slot_type;
    ref_id = ref_id;
    inventory_type = inventory_type;
    inventory_slot_pos = inventory_slot_pos;
    count = pos 0;
  })

-- `none` is the exception, or the read of a null pointer.
unfoldable pub slot_rows : List SlotRow → Slots → Option Slots
slot_rows [] slots = some slots
slot_rows (r ∷ rows) slots = elim (slot_data r) [
  | none ↦ none
  | some data_read ↦ slot_rows rows (set_slot data_read slots).0
]

-- LoadSlotSetting, with the answers of mysql_query and mysql_store_result; the slots are `none` for a null
-- QuickSlotManager. The whole is `none` for the exception, which nothing catches, or the read of a
-- null pointer: either ends the server with the connection still taken.
pub load_slot_setting :
    Bool → Bool → List SlotRow → Handles × Option Slots → Option (Handles × Option Slots × Bool)
load_slot_setting query stored rows (h, slots) =
    let (found, pool) = get_connection h.pool in
    let taken = record h { pool = pool } in
    elim found [
      | none ↦ some (taken, slots, false)
      | some conn ↦
          if not query
          then some (release conn taken, slots, false)
          else if not stored
          then some (release conn taken, slots, false)
          else elim slots [
            | none ↦ some (release conn taken, none, false)
            | some m ↦ elim (slot_rows rows m) [
              | none ↦ none
              | some m' ↦ some (release conn taken, some m', true)
            ]
          ]
    ]

pub record AllStat : Type 0 where
  pub str : ℤ
  pub dex : ℤ
  pub intel : ℤ
  pub luck : ℤ
  pub max_hp : ℤ
  pub max_mp : ℤ
  pub cur_hp : ℤ
  pub cur_mp : ℤ
  pub remain_ap : ℤ
  pub exp : ℤ
  pub level : ℕ
  pub need_exp : ℤ

pub use_stat : Option (Dict ℤ) → Option AllStat → AllStat → AllStat × Bool
use_stat table none old = (old, false)
use_stat none (some stat) old = (record stat { need_exp = old.need_exp }, false)
use_stat (some table) (some stat) old =
    (record stat { need_exp = get_need_exp table stat.level }, true)

-- The table of levels is `none` for a null LevelManager; a row has no `need_exp` of its own.
pub load_player_stat :
    Answers
    → List (Fetched AllStat)
    → Option (Dict ℤ)
    → Handles × AllStat
    → Handles × AllStat × Bool
load_player_stat a rows table = with_query a (use_stat table (first_row rows))

-- The four loads of HandleChannelAuth, which does not look at their answers.
pub record Loads : Type 0 where
  pub meta_answers : Answers
  pub metas : List (Fetched InventoryMetaInfo)
  pub item_answers : Answers
  pub items : List (Fetched ItemRow)
  pub skill_answers : Answers
  pub skills : List (Fetched (ℕ × ℕ))
  pub slots_queried : Bool
  pub slots_stored : Bool
  pub slots : List SlotRow

pub record Loaded : Type 0 where
  pub handles : Handles
  pub inventories : Option Inventories
  pub learned_skills : Dict ℕ
  pub quick_slots : Option Slots

-- `none` is the exception of LoadSlotSetting.
pub load_player_data : Loads → Loaded → Option Loaded
load_player_data l p =
    let meta = load_inventory_meta l.meta_answers l.metas (p.handles, p.inventories) in
    let item = load_inventory l.item_answers l.items (meta.0, meta.1) in
    let skill = load_learned_skill l.skill_answers l.skills (item.0, p.learned_skills) in
    elim (load_slot_setting l.slots_queried l.slots_stored l.slots (skill.0, p.quick_slots)) [
      | none ↦ none
      | some slot ↦ some (record {
        handles = slot.0;
        inventories = item.1;
        learned_skills = skill.1;
        quick_slots = slot.1;
      })
    ]

-- PlayerManager::GetPlayer by a name. The id is fetched as MYSQL_TYPE_SHORT, into two bytes of an `int`
-- that holds 0: `narrow` says what the library writes there for an id.
pub get_player_by_name :
    {P : Type 0} → (ℕ → ℕ) → Answers → List (Fetched ℕ) → Dict P → Handles → Handles × Option P
get_player_by_name narrow a rows players h =
    let (h', found) = open_query a h in
    elim found [
      | none ↦ (h', none)
      | some conn ↦ elim (first_row rows) [
        | none ↦ (close conn h', none)
        | some id ↦ (close conn h', lookup (narrow id) players)
      ]
    ]
