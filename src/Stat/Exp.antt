-- ===== src/Stat/Exp.antt =====
-- What AddExp does to the experience, the level and the ability points.
use ll2games_rpg.Prelude.{
  ℕ, zero, suc, ◌+◌, ◌*◌, ◌≤◌, ◌≡◌, refl, inl, inr, true, false, some, arith, ◌==◌, if◌then◌else◌,
  Bool-cases,
}
use ll2games_rpg.Prelude.Int.{
  ℤ, pos, pos_part, ◌+ℤ◌, ◌-ℤ◌, ◌≤ℤ◌, leb_ℤ, int_laws, +ℤ_parts, -ℤ_parts, eq_of_parts, eq_parts,
}
use ll2games_rpg.Prelude.Dict.{Dict}
use ll2games_rpg.Stat.{
  ExpResult, no_result, CharacterStat, get_need_exp, level_up, stays, level_loop, enough_fuel, gain,
  add_exp, result_of,
}

-- The experience that the next `n` levels need together.
pub need_sum : Dict ℤ → ℕ → ℕ → ℤ
need_sum table level zero = pos 0
need_sum table level (suc n) = get_need_exp table level +ℤ need_sum table (suc level) n

stays-false :
    (table : Dict ℤ) (c : CharacterStat)
    → stays table c ≡ false
    → (1 ≤ pos_part (get_need_exp table c.exp_stat.level))
      × (get_need_exp table c.exp_stat.level ≤ℤ c.exp_stat.exp)
unfolding stays
stays-false table c e = ground arith

-- `after` is `before`, `n` levels up, with no further level to go.
pub record Levels (table : Dict ℤ) (before : CharacterStat) (n : ℕ) (after : CharacterStat)
    : Type 0 where
  pub level : after.exp_stat.level ≡ before.exp_stat.level + n
  pub exp : after.exp_stat.exp +ℤ need_sum table before.exp_stat.level n ≡ before.exp_stat.exp
  pub points : after.remain_ap ≡ before.remain_ap + 5 * n
  pub hp : after.cur_hp ≡ (if n == 0 then before.cur_hp else before.derived.max_hp)
  pub mp : after.cur_mp ≡ (if n == 0 then before.cur_mp else before.derived.max_mp)
  pub base : after.base ≡ before.base
  pub derived : after.derived ≡ before.derived
  pub done : stays table after ≡ true

no_level : (table : Dict ℤ) (c : CharacterStat) → stays table c ≡ true → Levels table c 0 c
unfolding need_sum
no_level table c e = record {
  level = omega arith;
  exp = eq_of_parts _ _ (omega (arith, +ℤ_parts c.exp_stat.exp (pos 0)));
  points = omega arith;
  hp = refl;
  mp = refl;
  base = refl;
  derived = refl;
  done = e;
}

next_level :
    (table : Dict ℤ) (c c' : CharacterStat) (n : ℕ)
    → Levels table (level_up (get_need_exp table c.exp_stat.level) c) n c'
    → Levels table c (suc n) c'
unfolding need_sum level_up
next_level table c c' n l =
    let need = get_need_exp table c.exp_stat.level in
    let sum = need_sum table (suc c.exp_stat.level) n in
    record {
      level = omega (arith, l.level);
      exp = eq_of_parts _ _ (
          omega (
            int_laws,
            eq_parts l.exp,
            +ℤ_parts c'.exp_stat.exp (need +ℤ sum),
            +ℤ_parts need sum,
            +ℤ_parts c'.exp_stat.exp sum,
            -ℤ_parts c.exp_stat.exp need,
          ));
      points = omega (arith, l.points);
      hp = ground (arith, l.hp);
      mp = ground (arith, l.mp);
      base = l.base;
      derived = l.derived;
      done = l.done;
    }

level_up-smaller :
    (table : Dict ℤ) (fuel : ℕ) (c : CharacterStat)
    → stays table c ≡ false
    → pos_part c.exp_stat.exp ≤ suc fuel
    → pos_part (level_up (get_need_exp table c.exp_stat.level) c).exp_stat.exp ≤ fuel
unfolding level_up ◌-ℤ◌
level_up-smaller table fuel c e h = ground (arith, stays-false table c e)

-- Enough fuel ends the loop.
level_loop-Levels :
    (fuel : ℕ) (table : Dict ℤ) (c : CharacterStat)
    → pos_part c.exp_stat.exp ≤ fuel
    → (n : ℕ) × (c' : CharacterStat) × (level_loop fuel table c ≡ some c') × Levels table c n c'
unfolding level_loop
level_loop-Levels zero table c h = elim (Bool-cases (stays table c)) [
  | inl e ↦ (0, c, rw (level_loop, e) refl, no_level table c e)
  | inr e ↦ (0, c, ground (arith, stays-false table c e), ground (arith, stays-false table c e))
]
level_loop-Levels (suc fuel) table c h = elim (Bool-cases (stays table c)) [
  | inl e ↦ (0, c, rw (level_loop, e) refl, no_level table c e)
  | inr e ↦
      let (n, c', ends, l) =
        level_loop-Levels fuel table (level_up (get_need_exp table c.exp_stat.level) c)
          (level_up-smaller table fuel c e h) in
      (suc n, c', rw (level_loop, e) ends, next_level table c c' n l)
]

-- AddExp ends for any table of levels. It gives a positive amount of experience in full, no more and
-- no less: what the character has afterwards and what the levels on the way needed are together what
-- it had and the amount. Each level gives 5 ability points and full HP and MP, and no level is left
-- that the experience would still pay for.
pub add_exp-Levels :
    (table : Dict ℤ) (exp : ℤ) (c : CharacterStat)
    → leb_ℤ exp (pos 0) ≡ false
    → (n : ℕ) × (c' : CharacterStat) × (add_exp table exp c
        ≡ some (c', result_of table exp c.exp_stat.level c'))
      × Levels table (gain exp c) n c'
unfolding add_exp enough_fuel
add_exp-Levels table exp c positive =
    let (n, c', ends, l) =
      level_loop-Levels (enough_fuel (gain exp c)) table (gain exp c) (omega arith) in
    (n, c', rw (add_exp, positive, enough_fuel, ends) refl, l)

-- AddExp ends for every amount.
pub add_exp_total :
    (levels : Dict ℤ) (exp : ℤ) (c : CharacterStat)
    → (r : CharacterStat × ExpResult) × (add_exp levels exp c ≡ some r)
unfolding add_exp
add_exp_total levels exp c = elim (Bool-cases (leb_ℤ exp (pos 0))) [
  | inl nothing ↦ ((c, no_result), rw (nothing, add_exp) refl)
  | inr positive ↦
      let (n, c', ends, l) = add_exp-Levels levels exp c positive in
      ((c', result_of levels exp c.exp_stat.level c'), ends)
]
