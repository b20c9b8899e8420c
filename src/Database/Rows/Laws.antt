-- ===== src/Database/Rows/Laws.antt =====
-- How each statement changes the amount of an item that a character has.
use ll2games_rpg.Prelude.{
  ℕ, zero, suc, ◌≤◌, ◌≡◌, refl, inl, inr, Bool, true, false, List, [], ◌∷◌, arith, if◌then◌else◌,
  Bool-cases,
}
use ll2games_rpg.Prelude.Int.{
  ℤ, pos, pos_part, neg_part, ◌+ℤ◌, ◌≤ℤ◌, int_laws, eq_parts, eq_of_parts,
}
use ll2games_rpg.Database.Rows.{Row, is_at, has_row, update_rows, delete_rows, count_rows}

unfoldable pub count_at : ℕ → ℕ → Row → ℤ
count_at c i r = if is_at c i r then r.item_count else pos 0

-- The sum over the rows of character `c` for item `i`.
unfoldable pub amount_of : ℕ → ℕ → List Row → ℤ
amount_of c i [] = pos 0
amount_of c i (r ∷ rs) = count_at c i r +ℤ amount_of c i rs

unfoldable pub times : ℕ → ℤ → ℤ
times zero a = pos 0
times (suc n) a = a +ℤ times n a

-- Each character has one row at most for an item.
abbrev pub IsKeyed : List Row → Type 0
IsKeyed [] = Unit {0}
IsKeyed (r ∷ rs) = (has_row r.char_id r.item_id rs ≡ false) × IsKeyed rs

abbrev pub IsNonneg : List Row → Type 0
IsNonneg [] = Unit {0}
IsNonneg (r ∷ rs) = (pos 0 ≤ℤ r.item_count) × IsNonneg rs

pub count_at_hit : (c i : ℕ) (s : Row) → is_at c i s ≡ true → count_at c i s ≡ s.item_count
unfolding count_at
count_at_hit c i s e = rw e

pub count_at_miss : (c i : ℕ) (s : Row) → is_at c i s ≡ false → count_at c i s ≡ pos 0
unfolding count_at
count_at_miss c i s e = rw e

pub times-zero : (n : ℕ) → times n (pos 0) ≡ pos 0
unfolding times
times-zero zero = refl
times-zero (suc n) = eq_of_parts _ _ (omega (int_laws, eq_parts (times-zero n)))

module _ (c i : ℕ) (hits : Row → Bool) (f : ℤ → ℤ) where
  -- Every row that is hit moves the amount by the same step, from `b` to `a`.
  pub update_amount :
      (a b : ℤ)
      → ((r : Row) → hits r ≡ true → is_at c i r ≡ true)
      → ((n : ℤ) → f n +ℤ a ≡ n +ℤ b)
      → (rs : List Row)
      → amount_of c i (update_rows hits f rs) +ℤ times (count_rows hits rs) a
        ≡ amount_of c i rs +ℤ times (count_rows hits rs) b
  unfolding amount_of times update_rows count_rows
  update_amount a b at step [] = refl
  update_amount a b at step (r ∷ rs) = elim (Bool-cases (hits r)) [
    | inl hit ↦
        let r' : Row = record r { item_count = f r.item_count } in
        rw hit (
          eq_of_parts _ _ (
            omega (
              int_laws,
              eq_parts (step r.item_count),
              eq_parts (count_at_hit c i r' (at r hit)),
              eq_parts (count_at_hit c i r (at r hit)),
              eq_parts (update_amount a b at step rs),
            )))
    | inr miss ↦
        rw miss (eq_of_parts _ _ (omega (int_laws, eq_parts (update_amount a b at step rs))))
  ]

  -- A statement on other rows leaves the amount alone.
  pub update_other :
      ((r : Row) → hits r ≡ true → is_at c i r ≡ false)
      → (rs : List Row) → amount_of c i (update_rows hits f rs) ≡ amount_of c i rs
  unfolding amount_of update_rows
  update_other off [] = refl
  update_other off (r ∷ rs) = elim (Bool-cases (hits r)) [
    | inl hit ↦
        let r' : Row = record r { item_count = f r.item_count } in
        rw (
          hit,
          count_at_miss c i r' (off r hit),
          count_at_miss c i r (off r hit),
          update_other off rs,
        )
    | inr miss ↦ rw (miss, update_other off rs)
  ]

-- A statement that hits rows of one character and item only, each key being there once at most,
-- hits one row at most.
module _ (c i : ℕ) (hits : Row → Bool) (at : (r : Row) → hits r ≡ true → is_at c i r ≡ true) where
  count_missing : (rs : List Row) → has_row c i rs ≡ false → count_rows hits rs ≡ 0
  unfolding has_row count_rows
  count_missing [] e = refl
  count_missing (r ∷ rs) e = elim (Bool-cases (hits r)) [
    | inl hit ↦ ground (arith, at r hit)
    | inr miss ↦ rw miss (count_missing rs (ground arith))
  ]

  pub count_keyed : (rs : List Row) → IsKeyed rs → count_rows hits rs ≤ 1
  unfolding count_rows
  count_keyed [] k = omega arith
  count_keyed (r ∷ rs) k = elim (Bool-cases (hits r)) [
    | inl hit ↦ rw hit (omega (arith, count_missing rs (same_key (at r hit))))
    | inr miss ↦ rw miss (count_keyed rs k.1)
  ]
    where
      same_key : is_at c i r ≡ true → has_row c i rs ≡ false
      same_key e = ground (arith, k.0)

module _ (hits : Row → Bool) (f : ℤ → ℤ) where
  pub has_row-update :
      (c i : ℕ) (rs : List Row) → has_row c i (update_rows hits f rs) ≡ has_row c i rs
  unfolding has_row update_rows
  has_row-update c i [] = refl
  has_row-update c i (r ∷ rs) = elim (Bool-cases (hits r)) [
    | inl hit ↦ rw (hit, has_row-update c i rs)
    | inr miss ↦ rw (miss, has_row-update c i rs)
  ]

  pub update-IsKeyed : (rs : List Row) → IsKeyed rs → IsKeyed (update_rows hits f rs)
  unfolding update_rows
  update-IsKeyed [] k = tt
  update-IsKeyed (r ∷ rs) k = elim (Bool-cases (hits r)) [
    | inl hit ↦ rw hit (rw has_row-update k.0, update-IsKeyed rs k.1)
    | inr miss ↦ rw miss (rw has_row-update k.0, update-IsKeyed rs k.1)
  ]

  pub update-IsNonneg :
      ((r : Row) → hits r ≡ true → pos 0 ≤ℤ r.item_count → pos 0 ≤ℤ f r.item_count)
      → (rs : List Row) → IsNonneg rs
      → IsNonneg (update_rows hits f rs)
  unfolding update_rows
  update-IsNonneg keep [] n = tt
  update-IsNonneg keep (r ∷ rs) n = elim (Bool-cases (hits r)) [
    | inl hit ↦ rw hit (keep r hit n.0, update-IsNonneg keep rs n.1)
    | inr miss ↦ rw miss (n.0, update-IsNonneg keep rs n.1)
  ]

module _ (hits : Row → Bool) where
  has_row-delete :
      (c i : ℕ) (rs : List Row) → has_row c i rs ≡ false → has_row c i (delete_rows hits rs) ≡ false
  unfolding has_row delete_rows
  has_row-delete c i [] e = refl
  has_row-delete c i (r ∷ rs) e = ground (arith, has_row-delete c i rs)

  pub delete-IsKeyed : (rs : List Row) → IsKeyed rs → IsKeyed (delete_rows hits rs)
  unfolding delete_rows
  delete-IsKeyed [] k = tt
  delete-IsKeyed (r ∷ rs) k = elim (Bool-cases (hits r)) [
    | inl hit ↦ rw hit (delete-IsKeyed rs k.1)
    | inr miss ↦ rw miss (has_row-delete r.char_id r.item_id rs k.0, delete-IsKeyed rs k.1)
  ]

  pub delete-IsNonneg : (rs : List Row) → IsNonneg rs → IsNonneg (delete_rows hits rs)
  unfolding delete_rows
  delete-IsNonneg [] n = tt
  delete-IsNonneg (r ∷ rs) n = elim (Bool-cases (hits r)) [
    | inl hit ↦ rw hit (delete-IsNonneg rs n.1)
    | inr miss ↦ rw miss (n.0, delete-IsNonneg rs n.1)
  ]

  -- Deleting rows with nothing in them takes nothing away.
  pub delete_amount :
      (c i : ℕ)
      → ((r : Row) → hits r ≡ true → r.item_count ≤ℤ pos 0)
      → (rs : List Row) → IsNonneg rs
      → amount_of c i (delete_rows hits rs) ≡ amount_of c i rs
  unfolding amount_of delete_rows
  delete_amount c i low [] n = refl
  delete_amount c i low (r ∷ rs) n = elim (Bool-cases (hits r)) [
    | inl hit ↦ rw hit (
        eq_of_parts _ _
          (omega (int_laws, count_at_zero (low r hit), eq_parts (delete_amount c i low rs n.1))))
    | inr miss ↦ rw (miss, delete_amount c i low rs n.1)
  ]
    where
      count_at_zero :
          r.item_count ≤ℤ pos 0 → (pos_part (count_at c i r) ≡ 0) × (neg_part (count_at c i r) ≡ 0)
      count_at_zero h = elim (Bool-cases (is_at c i r)) [
        | inl e ↦
            let zero_count : r.item_count ≡ pos 0 = eq_of_parts _ _ (omega (arith, n.0)) in
            rw (count_at_hit c i r e, zero_count) (refl, refl)
        | inr e ↦ rw (count_at_miss c i r e) (omega arith)
      ]
