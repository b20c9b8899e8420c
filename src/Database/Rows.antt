-- ===== src/Database/Rows.antt =====
-- The table character_inventory and the six statements that TradeService.cpp prepares, as the SQL
-- standard reads their texts. The order of the rows carries no meaning.
pub mod Laws
pub mod Statements
use ll2games_rpg.Prelude.{
  ℕ, zero, suc, ◌+◌, Bool, true, false, not, ◌&&◌, ◌||◌, List, [], ◌∷◌, ◌==◌, if◌then◌else◌,
}
use ll2games_rpg.Prelude.Int.{ℤ, pos, ◌+ℤ◌, ◌-ℤ◌, leb_ℤ, eqb_ℤ}

pub record Row : Type 0 where
  pub char_id : ℕ
  pub inventory_type : ℤ
  pub slot_pos : ℤ
  pub item_id : ℕ
  pub item_count : ℤ

pub data Query : Type 0 where
  -- SELECT slot_pos ... WHERE char_id = ? AND item_id = ? LIMIT 1
  select_item_slot : ℕ → ℕ → Query
  -- SELECT COALESCE(MAX(slot_pos) + 1, 0) ... WHERE char_id = ? AND inventory_type = ?
  select_next_slot : ℕ → ℤ → Query
  -- UPDATE ... SET item_count = item_count + ? WHERE char_id = ? AND item_id = ?
  count_plus : ℤ → ℕ → ℕ → Query
  -- UPDATE ... SET item_count = item_count - ? WHERE char_id = ? AND item_id = ? AND item_count >= ?
  count_minus : ℤ → ℕ → ℕ → Query
  -- INSERT INTO character_inventory ... VALUES (?, ?, ?, ?, ?)
  insert_item : Row → Query
  -- DELETE ... WHERE char_id = ? AND item_id = ? AND item_count <= 0
  delete_empty : ℕ → ℕ → Query

abbrev pub is_at : ℕ → ℕ → Row → Bool
is_at c i r = r.char_id == c && r.item_id == i

unfoldable pub has_row : ℕ → ℕ → List Row → Bool
has_row c i [] = false
has_row c i (r ∷ rs) = is_at c i r || has_row c i rs

-- The WHERE clause of an UPDATE, of the rows whose value the SET clause changes.
pub plus_hits : ℤ → ℕ → ℕ → Row → Bool
plus_hits a c i r = is_at c i r && not (eqb_ℤ a (pos 0))

pub minus_hits : ℤ → ℕ → ℕ → Row → Bool
minus_hits a c i r = is_at c i r && leb_ℤ a r.item_count && not (eqb_ℤ a (pos 0))

pub update_rows : (Row → Bool) → (ℤ → ℤ) → List Row → List Row
update_rows hits f [] = []
update_rows hits f (r ∷ rs) =
    (if hits r then record r { item_count = f r.item_count } else r) ∷ update_rows hits f rs

pub count_rows : (Row → Bool) → List Row → ℕ
count_rows hits [] = 0
count_rows hits (r ∷ rs) = if hits r then suc (count_rows hits rs) else count_rows hits rs

pub delete_hits : ℕ → ℕ → Row → Bool
delete_hits c i r = is_at c i r && leb_ℤ r.item_count (pos 0)

pub delete_rows : (Row → Bool) → List Row → List Row
delete_rows hits [] = []
delete_rows hits (r ∷ rs) = if hits r then delete_rows hits rs else r ∷ delete_rows hits rs

-- What a statement that succeeds does to the table.
unfoldable pub effect : Query → List Row → List Row
unfolding update_rows delete_rows plus_hits minus_hits delete_hits
effect (select_item_slot c i) rs = rs
effect (select_next_slot c t) rs = rs
effect (count_plus a c i) rs = update_rows (plus_hits a c i) (λ n. n +ℤ a) rs
effect (count_minus a c i) rs = update_rows (minus_hits a c i) (λ n. n -ℤ a) rs
effect (insert_item r) rs = r ∷ rs
effect (delete_empty c i) rs = delete_rows (delete_hits c i) rs

-- An UPDATE counts the rows that it changed, not those that it matched.
unfoldable pub affected : Query → List Row → ℕ
unfolding count_rows plus_hits minus_hits delete_hits
affected (select_item_slot c i) rs = 0
affected (select_next_slot c t) rs = 0
affected (count_plus a c i) rs = count_rows (plus_hits a c i) rs
affected (count_minus a c i) rs = count_rows (minus_hits a c i) rs
affected (insert_item r) rs = 1
affected (delete_empty c i) rs = count_rows (delete_hits c i) rs
