-- ===== src/PlayerService/Returned.antt =====
-- What the loads leave of the connections and the statements.
use mathlib.Core.List.{Perm, perm_append_singleton}
use mathlib.Core.List.Perm
use ll2games_rpg.Prelude.{
  ℕ, suc, ◌-◌, ◌≡◌, refl, sym, subst, ◌∙◌, Bool, true, false, not, Option, none, some, List, [],
  ◌∷◌, ◌++◌, if_both, arith, All,
}
use ll2games_rpg.Prelude.Int.{ℤ}
use ll2games_rpg.Database.Pool.{Pool, get_connection, release_connection}
use ll2games_rpg.Inventory.{InventoryMetaInfo}
use ll2games_rpg.InventoryManager.{Inventories}
use ll2games_rpg.QuickSlot.{Slots}
use ll2games_rpg.Database.Statement.{
  Fetched, Answers, Handles, release, close, open_query, with_query,
}
use ll2games_rpg.PlayerService.{
  load_inventory_meta, load_inventory, load_learned_skill, load_slot_setting, slot_data, slot_rows,
  meta_rows, ItemRow, item_rows, skill_rows, SlotRow, Loads, Loaded, load_player_data,
}

-- The connection that was used comes last.
abbrev rotate : Pool → Pool
rotate [] = []
rotate (conn ∷ pool) = pool ++ conn ∷ []

abbrev Kept : Handles → Handles → Type 0
Kept h h' = (h'.pool ≡ rotate h.pool) × (h'.statements ≡ h.statements)

-- Once there is a connection, the query is refused before or after its statement is made, or it opens.
module _ (M : Handles × Option ℕ → Type 0) (conn : ℕ) (pool : Pool) (n : ℕ) where
  abbrev given_back : ℕ → Handles × Option ℕ
  given_back k = (record { pool = pool ++ conn ∷ []; statements = k }, none)

  open_query_cases :
      (a : Answers)
      → M (given_back n)
      → M (given_back (suc n - 1))
      → M (record { pool = pool; statements = suc n }, some conn)
      → M (open_query a (record { pool = conn ∷ pool; statements = n }))
  unfolding open_query get_connection release_connection release close
  open_query_cases a early late opened = if_both M (not a.init) early (
      if_both M (not a.prepare) late (
        if_both M (not a.bind_param) late (
          if_both M (not a.execute) late
            (if_both M (not a.bind_result) late (if_both M (not a.store_result) late opened)))))

with_query-Kept :
    {S : Type 0} (a : Answers) (use_rows : S → S × Bool) (s : S) (pool : Pool) (n : ℕ)
    → Kept
        (record { pool = pool; statements = n })
        (with_query a use_rows (record { pool = pool; statements = n }, s)).0
unfolding with_query open_query get_connection close release release_connection
with_query-Kept a use_rows s [] n = (refl, refl)
with_query-Kept {S} a use_rows s (conn ∷ pool) n =
    open_query_cases (λ o. Kept (record { pool = conn ∷ pool; statements = n }) (finish o).0) conn
      pool n a (refl, refl) (refl, omega arith) (refl, omega arith)
  where
    finish : Handles × Option ℕ → Handles × S × Bool
    finish o = elim o.1 [
      | none ↦ (o.0, s, false)
      | some c ↦ (close c o.0, (use_rows s).0, (use_rows s).1)
    ]

-- The same connections are idle, and as many statements are open.
abbrev pub Returned : Handles → Handles → Type 0
Returned h h' = Perm h.pool h'.pool × (h'.statements ≡ h.statements)

rotate_perm : (pool : Pool) → Perm pool (rotate pool)
rotate_perm [] = Perm.refl []
rotate_perm (conn ∷ pool) = Perm.symm (perm_append_singleton conn pool)

Kept-Returned : (h h' : Handles) → Kept h h' → Returned h h'
Kept-Returned h h' k = (subst (Perm h.pool) (sym k.0) (rotate_perm h.pool), k.1)

Returned-trans : (g h k : Handles) → Returned g h → Returned h k → Returned g k
Returned-trans g h k p q = (Perm.trans p.0 q.0, q.1 ∙ p.1)

with_query-Returned :
    {S : Type 0} (a : Answers) (use_rows : S → S × Bool) (s : S) (h : Handles)
    → Returned h (with_query a use_rows (h, s)).0
with_query-Returned a use_rows s h =
    Kept-Returned h (with_query a use_rows (h, s)).0
      (with_query-Kept a use_rows s h.pool h.statements)

-- `std::stoi` reads a number in both columns.
abbrev pub IsRead : SlotRow → Type 0
IsRead r =
    (i : ℤ) × (t : ℕ) × (ref : ℤ) × (inv : ℤ) × (p : ℤ) × (r ≡ record {
      slot_index = some i;
      slot_type = some t;
      ref_id = some ref;
      inventory_type = some inv;
      inventory_slot_pos = some p;
    })

slot_rows_read :
    (rows : List SlotRow) (m : Slots)
    → All IsRead rows
    → (m' : Slots) × (slot_rows rows m ≡ some m')
unfolding slot_rows slot_data
slot_rows_read [] m h = (m, refl)
slot_rows_read (r ∷ rows) m ((i, t, ref, inv, p, e), h) =
    rw (e, slot_rows) (slot_rows_read rows _ h)

-- The load ends, and keeps what the query keeps.
abbrev EndsKept : Handles → Option (Handles × Option Slots × Bool) → Type 0
EndsKept h out = (done : Handles × Option Slots × Bool) × (out ≡ some done) × Kept h done.0

load_slot_setting-Kept :
    (query stored : Bool) (rows : List SlotRow) (slots : Option Slots) (pool : Pool) (n : ℕ)
    → All IsRead rows
    → EndsKept
        (record { pool = pool; statements = n })
        (load_slot_setting query stored rows (record { pool = pool; statements = n }, slots))
unfolding load_slot_setting get_connection release release_connection
load_slot_setting-Kept query stored rows slots [] n h = (_, refl, (refl, refl))
load_slot_setting-Kept true true rows none (conn ∷ pool) n h = (_, refl, (refl, refl))
load_slot_setting-Kept true true rows (some m) (conn ∷ pool) n h =
    let (m', read) = slot_rows_read rows m h in rw (read, load_slot_setting) (_, refl, (refl, refl))
load_slot_setting-Kept true false rows slots (conn ∷ pool) n h = (_, refl, (refl, refl))
load_slot_setting-Kept false stored rows slots (conn ∷ pool) n h = (_, refl, (refl, refl))

load_inventory_meta-Returned :
    (a : Answers) (rows : List (Fetched InventoryMetaInfo)) (h : Handles) (ms : Option Inventories)
    → Returned h (load_inventory_meta a rows (h, ms)).0
unfolding load_inventory_meta
load_inventory_meta-Returned a rows h none = (Perm.refl h.pool, refl)
load_inventory_meta-Returned a rows h (some ms) = with_query-Returned a (meta_rows rows) ms h

load_inventory-Returned :
    (a : Answers) (rows : List (Fetched ItemRow)) (h : Handles) (ms : Option Inventories)
    → Returned h (load_inventory a rows (h, ms)).0
unfolding load_inventory
load_inventory-Returned a rows h none = (Perm.refl h.pool, refl)
load_inventory-Returned a rows h (some ms) = with_query-Returned a (item_rows rows) ms h

-- When each row for the quick slots can be read (no null pointer for `atoi` in its first three
-- columns, and a number for `std::stoi` in its last two), the four loads of a log-in end, whichever
-- call fails and whatever is a null pointer, and afterwards the same connections are idle as before,
-- and no statement more is open.
pub load_player_data-Returned :
    (l : Loads) (p : Loaded)
    → All IsRead l.slots
    → (p' : Loaded) × (load_player_data l p ≡ some p') × Returned p.handles p'.handles
unfolding load_player_data load_learned_skill
load_player_data-Returned l p read =
    let meta = load_inventory_meta l.meta_answers l.metas (p.handles, p.inventories) in
    let item = load_inventory l.item_answers l.items (meta.0, meta.1) in
    let skill = with_query l.skill_answers (skill_rows l.skills) (item.0, p.learned_skills) in
    let (slot, ends, kept) =
      load_slot_setting-Kept l.slots_queried l.slots_stored l.slots p.quick_slots skill.0.pool
        skill.0.statements read in
    (
      record {
        handles = slot.0;
        inventories = item.1;
        learned_skills = skill.1;
        quick_slots = slot.1;
      },
      rw (ends, load_player_data) refl,
      Returned-trans p.handles meta.0 slot.0
          (load_inventory_meta-Returned l.meta_answers l.metas p.handles p.inventories)
          (Returned-trans meta.0 item.0 slot.0
            (load_inventory-Returned l.item_answers l.items meta.0 meta.1)
            (Returned-trans item.0 skill.0 slot.0
              (with_query-Returned l.skill_answers (skill_rows l.skills) p.learned_skills item.0)
              (Kept-Returned skill.0 slot.0 kept))),
    )
