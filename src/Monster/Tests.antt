-- ===== src/Monster/Tests.antt =====
-- A monster that is hit three times.
use ll2games_rpg.Prelude.{refl, List, [], ◌∷◌, arith}
use ll2games_rpg.Prelude.Int.{pos}
use ll2games_rpg.Monster.{Monster, init}
use ll2games_rpg.Monster.Life.{IsValid}
use ll2games_rpg.Monster.Hits.{Hit, Outcome, hit_all, total, hits_kill_once}

abbrev slime : Monster
slime = init (pos 30) (pos 12) 5000 1000 0

abbrev three_hits : List Hit
three_hits = (10, 1, 1, pos 12) ∷ (20, 2, 2, pos 25) ∷ (30, 1, 1, pos 4) ∷ []

slime-IsValid : IsValid slime
unfolding init
slime-IsValid = record {
  request = refl;
  some_hp = λ e. (omega arith, omega arith);
  no_hp = λ e. ground arith;
  full = omega arith;
}

hits_kill_once_example : Outcome slime (total three_hits) (hit_all three_hits slime)
unfolding init
hits_kill_once_example = hits_kill_once three_hits slime slime-IsValid refl
