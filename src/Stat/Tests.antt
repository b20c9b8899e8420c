-- ===== src/Stat/Tests.antt =====
-- A character that gains two levels at once.
use ll2games_rpg.Prelude.{ℕ, ◌≡◌, refl, some, [], ◌∷◌}
use ll2games_rpg.Prelude.Int.{ℤ, pos}
use ll2games_rpg.Prelude.Dict.{Dict}
use ll2games_rpg.Stat.{CharacterStat, add_exp, result_of, gain}
use ll2games_rpg.Stat.Exp.{Levels, add_exp-Levels}

abbrev levels : Dict ℤ
levels = (1, pos 10) ∷ (2, pos 20) ∷ (3, pos 40) ∷ []

abbrev novice : CharacterStat
novice = record {
  base = record { str = pos 4; dex = pos 4; intel = pos 4; luck = pos 4 };
  derived = record { max_hp = pos 50; max_mp = pos 30 };
  exp_stat = record { level = 1; exp = pos 3 };
  cur_hp = pos 7;
  cur_mp = pos 9;
  remain_ap = 0;
}

add_exp-Levels_example :
    (n : ℕ) × (c' : CharacterStat) × (add_exp levels (pos 30) novice
      ≡ some (c', result_of levels (pos 30) 1 c'))
    × Levels levels (gain (pos 30) novice) n c'
add_exp-Levels_example = add_exp-Levels levels (pos 30) novice refl
