-- ===== src/Drop/Tests.antt =====
-- Runs of a group of two entries, with a generator that always draws the upper bound and counts its draws.
use ll2games_rpg.Prelude.{
  ℕ, suc, ◌≤◌, ◌≡◌, refl, Bool, true, false, List, [], ◌∷◌, ◌++◌, arith, if◌then◌else◌, ◌+◌, length,
  min,
}
use ll2games_rpg.Prelude.Int.{ℤ, pos, pos_part, ◌≤ℤ◌, ◌+ℤ◌}
use ll2games_rpg.Drop.{
  item, DropEntry, DropGroup, DropResult, calculate_weight, keep_entry, select_entry, drop_rounds,
  select_drop_item, set_drop_item, both_groups,
}
use ll2games_rpg.Drop.Refines.{Uniform, Drawn, select_drop_item-Drawn}
use ll2games_rpg.Drop.Enough.{select_drop_item_enough}

abbrev highest : ℤ → ℤ → ℕ → ℤ × ℕ
highest lo hi g = (hi, suc g)

highest-Uniform : Uniform highest
highest-Uniform lo hi g h = (h, omega arith)

abbrev potion : DropEntry
potion = record {
  drop_type = item;
  item_id = 7;
  weight = pos 3;
  min_count = pos 1;
  max_count = pos 2;
}

abbrev sword : DropEntry
sword = record {
  drop_type = item;
  item_id = 9;
  weight = pos 1;
  min_count = pos 1;
  max_count = pos 1;
}

abbrev group : Bool → DropGroup
group dup = record {
  min_drop = pos 1;
  max_drop = pos 3;
  allow_duplicate = dup;
  entries = potion ∷ sword ∷ [];
}

abbrev drop_of : ℕ → ℤ → DropResult
drop_of i n = record { drop_type = item; item_id = i; count = n }

-- Three drops are drawn, but there are two entries only.
both_drop :
    (select_drop_item highest (group false) [] 0).drop_items
    ≡ drop_of 9 (pos 1) ∷ drop_of 7 (pos 2) ∷ []
unfolding select_drop_item drop_rounds select_entry keep_entry calculate_weight ◌+ℤ◌
both_drop = refl

missing_group : (set_drop_item highest [] ((1, group true) ∷ []) 1 1 0).0 ≡ []
unfolding set_drop_item
missing_group = refl

two_groups :
    length (set_drop_item highest ((1, group false) ∷ []) ((2, group true) ∷ []) 1 2 0).0 ≡ 5
unfolding set_drop_item both_groups select_drop_item drop_rounds select_entry keep_entry
    calculate_weight ◌+ℤ◌
two_groups = refl

select_drop_item-Drawn_example :
    (drops : List DropResult) × ((select_drop_item highest (group false) [] 0).drop_items
      ≡ [] ++ drops)
    × (length drops ≤ pos_part (pos 3))
    × Drawn false (potion ∷ sword ∷ []) drops
select_drop_item-Drawn_example = select_drop_item-Drawn highest highest-Uniform (group false) [] 0

select_drop_item_enough_example :
    ((select_drop_item highest (group true) [] 0).selected ≡ true)
    × (n : ℕ) × (pos 1 ≤ℤ pos n)
    × (pos n ≤ℤ pos 3)
    × (length (select_drop_item highest (group true) [] 0).drop_items
        ≡ length {A = DropResult} [] + (if true then n else min n 2))
select_drop_item_enough_example =
    select_drop_item_enough highest highest-Uniform (group true) [] 0 refl (λ e. ground (arith, e))
      ((omega arith, omega arith, omega arith), ((omega arith, omega arith, omega arith), tt))
