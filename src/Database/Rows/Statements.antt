-- ===== src/Database/Rows/Statements.antt =====
-- What the four statements that write do to the amounts, and that they keep the table well formed.
use ll2games_rpg.Prelude.{ℕ, ◌≡◌, ◌≢◌, refl, ◌⊎◌, true, false, List, arith, ◌∙◌}
use ll2games_rpg.Prelude.Int.{ℤ, pos, ◌+ℤ◌, ◌-ℤ◌, ◌≤ℤ◌, int_laws, eq_parts, eq_of_parts}
use ll2games_rpg.Database.Rows.{
  Row, count_plus, count_minus, insert_item, delete_empty, is_at, has_row, plus_hits, minus_hits,
  delete_hits, count_rows, effect, affected,
}
use ll2games_rpg.Database.Rows.Laws.{
  count_at, amount_of, times, times-zero, IsKeyed, IsNonneg, update_amount, update_other,
  count_keyed, update-IsKeyed, update-IsNonneg, delete-IsKeyed, delete-IsNonneg, delete_amount,
}

-- One row for each character and item, and no negative count.
pub record IsInventory (rs : List Row) : Type 0 where
  pub keyed : IsKeyed rs
  pub nonneg : IsNonneg rs

module _ (a : ℤ) (c i : ℕ) where
  minus_at : (r : Row) → minus_hits a c i r ≡ true → is_at c i r ≡ true
  unfolding minus_hits
  minus_at r h = ground arith

  minus_enough : (r : Row) → minus_hits a c i r ≡ true → a ≤ℤ r.item_count
  unfolding minus_hits
  minus_enough r h = ground arith

  plus_at : (r : Row) → plus_hits a c i r ≡ true → is_at c i r ≡ true
  unfolding plus_hits
  plus_at r h = ground arith

  -- UPDATE ... item_count - ?: every row with enough in it loses the amount.
  pub minus_amount :
      (rs : List Row)
      → amount_of c i (effect (count_minus a c i) rs) +ℤ times (affected (count_minus a c i) rs) a
        ≡ amount_of c i rs
  unfolding effect affected
  minus_amount rs =
      update_amount c i (minus_hits a c i) (λ n. n -ℤ a) a (pos 0) minus_at
        (λ n. eq_of_parts _ _ (omega int_laws)) rs
      ∙ rw times-zero (eq_of_parts _ _ (omega int_laws))

  -- UPDATE ... item_count + ?: every row of the item gains the amount.
  pub plus_amount :
      (rs : List Row)
      → amount_of c i (effect (count_plus a c i) rs)
        ≡ amount_of c i rs +ℤ times (affected (count_plus a c i) rs) a
  unfolding effect affected
  plus_amount rs =
      let e =
        update_amount c i (plus_hits a c i) (λ n. n +ℤ a) (pos 0) a plus_at
          (λ n. eq_of_parts _ _ (omega int_laws)) rs in
      eq_of_parts _ _
        (omega (int_laws, eq_parts e, eq_parts (times-zero (count_rows (plus_hits a c i) rs))))

  pub minus_once :
      (rs : List Row)
      → IsKeyed rs
      → affected (count_minus a c i) rs ≢ 0
      → affected (count_minus a c i) rs ≡ 1
  unfolding affected
  minus_once rs k h = omega (arith, count_keyed c i (minus_hits a c i) minus_at rs k)

  pub plus_once :
      (rs : List Row)
      → IsKeyed rs
      → affected (count_plus a c i) rs ≢ 0
      → affected (count_plus a c i) rs ≡ 1
  unfolding affected
  plus_once rs k h = omega (arith, count_keyed c i (plus_hits a c i) plus_at rs k)

  pub minus-IsNonneg : (rs : List Row) → IsNonneg rs → IsNonneg (effect (count_minus a c i) rs)
  unfolding effect
  minus-IsNonneg rs n = update-IsNonneg (minus_hits a c i) _ enough rs n
    where
      enough :
          (r : Row) → minus_hits a c i r ≡ true → pos 0 ≤ℤ r.item_count → pos 0 ≤ℤ r.item_count -ℤ a
      enough r h n = omega (int_laws, minus_enough r h)

  pub minus-IsInventory :
      (rs : List Row) → IsInventory rs → IsInventory (effect (count_minus a c i) rs)
  unfolding effect
  minus-IsInventory rs v = record {
    keyed = update-IsKeyed (minus_hits a c i) _ rs v.keyed;
    nonneg = minus-IsNonneg rs v.nonneg;
  }

  pub plus-IsInventory :
      (rs : List Row) → pos 0 ≤ℤ a → IsInventory rs → IsInventory (effect (count_plus a c i) rs)
  unfolding effect
  plus-IsInventory rs h v = record {
    keyed = update-IsKeyed (plus_hits a c i) _ rs v.keyed;
    nonneg = update-IsNonneg (plus_hits a c i) _ (λ r hit n. omega int_laws) rs v.nonneg;
  }

  module _ (c' i' : ℕ) (other : (c' ≢ c) ⊎ (i' ≢ i)) where
    off_key : (r : Row) → is_at c i r ≡ true → is_at c' i' r ≡ false
    off_key r h = ground arith

    pub minus_other :
        (rs : List Row) → amount_of c' i' (effect (count_minus a c i) rs) ≡ amount_of c' i' rs
    unfolding effect
    minus_other rs = update_other c' i' (minus_hits a c i) _ (λ r h. off_key r (minus_at r h)) rs

    pub plus_other :
        (rs : List Row) → amount_of c' i' (effect (count_plus a c i) rs) ≡ amount_of c' i' rs
    unfolding effect
    plus_other rs = update_other c' i' (plus_hits a c i) _ (λ r h. off_key r (plus_at r h)) rs

module _ (c i : ℕ) where
  delete_low : (r : Row) → delete_hits c i r ≡ true → r.item_count ≤ℤ pos 0
  unfolding delete_hits
  delete_low r h = ground arith

  -- DELETE ... item_count <= 0 takes nothing away where no count is negative.
  pub delete_empty_amount :
      (c' i' : ℕ) (rs : List Row)
      → IsNonneg rs
      → amount_of c' i' (effect (delete_empty c i) rs) ≡ amount_of c' i' rs
  unfolding effect
  delete_empty_amount c' i' rs n = delete_amount (delete_hits c i) c' i' delete_low rs n

  pub delete-IsInventory :
      (rs : List Row) → IsInventory rs → IsInventory (effect (delete_empty c i) rs)
  unfolding effect
  delete-IsInventory rs v = record {
    keyed = delete-IsKeyed (delete_hits c i) rs v.keyed;
    nonneg = delete-IsNonneg (delete_hits c i) rs v.nonneg;
  }

-- INSERT of a row.
pub insert_amount :
    (c i : ℕ) (r : Row) (rs : List Row)
    → amount_of c i (effect (insert_item r) rs) ≡ count_at c i r +ℤ amount_of c i rs
unfolding effect amount_of
insert_amount c i r rs = refl

pub insert-IsInventory :
    (r : Row) (rs : List Row)
    → has_row r.char_id r.item_id rs ≡ false
    → pos 0 ≤ℤ r.item_count
    → IsInventory rs
    → IsInventory (effect (insert_item r) rs)
unfolding effect
insert-IsInventory r rs fresh n v = record { keyed = (fresh, v.keyed); nonneg = (n, v.nonneg) }
