-- ===== src/PlayerService/Items.antt =====
-- What LoadInventory leaves in the slots.
use ll2games_rpg.Prelude.{
  ℕ, ◌%◌, ◌^◌, ◌≡◌, refl, sym, ap, ◌∙◌, Bool, true, false, ◌&&◌, Option, none, some, List, [], ◌∷◌,
  ◌==◌, if◌then◌else◌, inl, inr, Bool-cases, option_cases, ==_iff,
}
use ll2games_rpg.Prelude.Int.{ℤ}
use ll2games_rpg.Prelude.Dict.{lookup, insert, lookup-insert}
use ll2games_rpg.Inventory.{Inventory, InventorySlot, set_slot_item}
use ll2games_rpg.InventoryManager.{Inventories, get_inventory}
use ll2games_rpg.Database.Statement.{
  Fetched, row, truncated, fetch_error, Answers, Handles, open_query, with_query,
}
use ll2games_rpg.PlayerService.{ItemRow, load_row, item_rows, load_inventory}

-- The item and the count in a slot.
abbrev content : Option InventorySlot → Option (ℕ × ℤ)
content none = none
content (some slot) = some (slot.item_id, slot.item_count)

abbrev content_of : ℕ → Option Inventory → Option (ℕ × ℤ)
content_of p none = none
content_of p (some inventory) = content (lookup p inventory.slots)

abbrev pub held_at : ℕ → ℕ → Inventories → Option (ℕ × ℤ)
held_at t p ms = content_of p (lookup t ms)

abbrev hits : ℕ → ℕ → ItemRow → Bool
hits t p r = (t == (r.inventory_type % 2 ^ 8)) && (p == r.slot_pos)

abbrev or_else {ℓ} : {A : Type ℓ} → Option A → Option A → Option A
or_else none x = x
or_else (some y) x = some y

abbrev from_row : ℕ → ℕ → ItemRow → Option (ℕ × ℤ) → Option (ℕ × ℤ)
from_row t p r before = if hits t p r then some (r.item_id, r.item_count) else before

-- What the last row for a slot says, of the rows that are fetched before an error.
abbrev pub last_row : ℕ → ℕ → List (Fetched ItemRow) → Option (ℕ × ℤ)
last_row t p [] = none
last_row t p (row r ∷ rows) = or_else (last_row t p rows) (from_row t p r none)
last_row t p (truncated r ∷ rows) = or_else (last_row t p rows) (from_row t p r none)
last_row t p (fetch_error ∷ rows) = none

set_slot-content :
    (p pos id : ℕ) (count : ℤ) (inv : Inventory)
    → content_of p (some (set_slot_item inv pos id count))
      ≡ (if p == pos then some (id, count) else content_of p (some inv))
unfolding set_slot_item
set_slot-content p pos id count inv =
    ap content (lookup-insert pos p _ inv.slots)
    ∙ elim (Bool-cases (p == pos)) [ inl same ↦ rw same refl | inr other ↦ rw other refl ]

put-held_at :
    (t p k pos id : ℕ) (count : ℤ) (inv : Inventory) (ms : Inventories)
    → lookup k ms ≡ some inv
    → held_at t p (insert k (set_slot_item inv pos id count) ms)
      ≡ (if (t == k) && (p == pos) then some (id, count) else held_at t p ms)
put-held_at t p k pos id count inv ms e =
    ap (content_of p) (lookup-insert k t (set_slot_item inv pos id count) ms)
    ∙ elim (Bool-cases (t == k)) [
      | inl same ↦
          let is : t ≡ k = (==_iff t k).0 same in
          rw same (
            set_slot-content p pos id count inv
            ∙ ap (λ o. if p == pos then some (id, count) else content_of p o)
                (sym e ∙ ap (λ n. lookup n ms) (sym is)))
      | inr other ↦ rw other refl
    ]

load_row-held_at :
    (t p : ℕ) (r : ItemRow) (ms ms' : Inventories)
    → load_row r ms ≡ some ms'
    → held_at t p ms' ≡ from_row t p r (held_at t p ms)
unfolding load_row get_inventory
load_row-held_at t p r ms ms' =
    option_cases (λ o. o ≡ some ms' → held_at t p ms' ≡ from_row t p r (held_at t p ms))
      (lookup (r.inventory_type % 2 ^ 8) ms) (λ missing e. cc)
      (λ inv found e.
        ap (held_at t p) (sym (some_inj e))
        ∙ put-held_at t p (r.inventory_type % 2 ^ 8) r.slot_pos r.item_id r.item_count inv ms found)
  where
    some_inj : {a b : Inventories} → ◌≡◌ {A = Option Inventories} (some a) (some b) → a ≡ b
    some_inj q = cc

chosen :
    (b : Bool) (x : ℕ × ℤ) (later before : Option (ℕ × ℤ))
    → or_else later (if b then some x else before)
      ≡ or_else (or_else later (if b then some x else none)) before
chosen true x none before = refl
chosen false x none before = refl
chosen b x (some y) before = refl

after_row :
    (t p : ℕ) (r : ItemRow) (rows : List (Fetched ItemRow)) (ms : Inventories)
    → ((ms' : Inventories)
        → (item_rows rows ms').1 ≡ true
        → held_at t p (item_rows rows ms').0 ≡ or_else (last_row t p rows) (held_at t p ms'))
    → (item_rows (row r ∷ rows) ms).1 ≡ true
    → held_at t p (item_rows (row r ∷ rows) ms).0
      ≡ or_else (or_else (last_row t p rows) (from_row t p r none)) (held_at t p ms)
unfolding item_rows
after_row t p r rows ms rest =
    option_cases
      (λ (o : Inventories × Bool).
        o.1 ≡ true
        → held_at t p o.0
          ≡ or_else (or_else (last_row t p rows) (from_row t p r none)) (held_at t p ms))
      (load_row r ms) (λ missing e. absurd (false_ne_true e))
      (λ ms' found success.
        rest ms' success
        ∙ ap (or_else (last_row t p rows)) (load_row-held_at t p r ms ms' found)
        ∙ chosen (hits t p r) (r.item_id, r.item_count) (last_row t p rows) (held_at t p ms))
  where
    false_ne_true : false ≡ true → ⊥
    false_ne_true e = cc

item_rows_slots :
    (t p : ℕ) (rows : List (Fetched ItemRow)) (ms : Inventories)
    → (item_rows rows ms).1 ≡ true
    → held_at t p (item_rows rows ms).0 ≡ or_else (last_row t p rows) (held_at t p ms)
unfolding item_rows
item_rows_slots t p [] ms success = refl
item_rows_slots t p (row r ∷ rows) ms success =
    after_row t p r rows ms (item_rows_slots t p rows) success
item_rows_slots t p (truncated r ∷ rows) ms success =
    after_row t p r rows ms (item_rows_slots t p rows) success
item_rows_slots t p (fetch_error ∷ rows) ms success = refl

-- A query that answers true has used its rows.
with_query_used :
    {S : Type 0} (a : Answers) (use_rows : S → S × Bool) (h : Handles) (s : S)
    → (with_query a use_rows (h, s)).2 ≡ true
    → ((with_query a use_rows (h, s)).1 ≡ (use_rows s).0) × ((use_rows s).1 ≡ true)
unfolding with_query
with_query_used {S} a use_rows h s =
    option_cases
      (λ (out : Handles × S × Bool).
        out.2 ≡ true → (out.1 ≡ (use_rows s).0) × ((use_rows s).1 ≡ true))
      (open_query a h).1 (λ missing e. cc) (λ conn found e. (refl, e))

-- After a LoadInventory that answers true, the player has inventories in which each slot holds what the
-- last row for it says, of the rows that are fetched before an error of the fetch; and a slot for which
-- there is no row, such as one whose item was taken away in the database since, holds what it held before.
pub load_inventory_slots :
    (t p : ℕ) (a : Answers) (rows : List (Fetched ItemRow)) (h : Handles) (ms : Inventories)
    → (load_inventory a rows (h, some ms)).2 ≡ true
    → (ms' : Inventories) × ((load_inventory a rows (h, some ms)).1 ≡ some ms')
      × (held_at t p ms' ≡ or_else (last_row t p rows) (held_at t p ms))
unfolding load_inventory
load_inventory_slots t p a rows h ms success =
    let (used, ended) = with_query_used a (item_rows rows) h ms success in
    ((item_rows rows ms).0, ap some used, item_rows_slots t p rows ms ended)
