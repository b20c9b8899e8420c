-- ===== src/Combat/Rate.antt =====
-- The values that the level rate takes.
use ll2games_rpg.Prelude.{◌≡◌, refl, ◌⊎◌, inl, inr, arith, if◌then◌else◌, Bool-cases}
use ll2games_rpg.Prelude.Int.{
  ℤ, pos, negsuc, ◌+ℤ◌, ◌-ℤ◌, ◌*ℤ◌, ◌/ℤ◌, ◌≤ℤ◌, ltb_ℤ, leb_ℤ, -ℤ_parts, +ℤ_parts,
}
use ll2games_rpg.Combat.{
  penalty_level_diff, penalty_pct, max_pct, level_rate, clamp_rate, get_level_diff_rate, base_pct,
  calculate_final_damage,
}

level_rate_low : (d : ℤ) → pos 0 ≤ℤ d +ℤ pos 29 → (pos 86 ≤ℤ level_rate d)
unfolding level_rate ◌+ℤ◌ ◌*ℤ◌ ◌/ℤ◌
level_rate_low (pos n) h = ground arith
level_rate_low (negsuc n) h = ground arith

clamp_rate_bounds : (r : ℤ) → pos 86 ≤ℤ r → (pos 86 ≤ℤ clamp_rate r) × (clamp_rate r ≤ℤ max_pct)
unfolding clamp_rate
clamp_rate_bounds r h = ground arith

-- The damage rate is 5 percent against a defender who is 30 levels or more above the attacker, and
-- between 86 and 120 percent otherwise; the lower limit of 30 percent is never reached.
pub level_rate_bounds :
    (attacker defender : ℤ)
    → ((penalty_level_diff ≤ℤ defender -ℤ attacker)
        × (get_level_diff_rate attacker defender ≡ penalty_pct))
      ⊎ ((pos 86 ≤ℤ get_level_diff_rate attacker defender)
          × (get_level_diff_rate attacker defender ≤ℤ max_pct))
unfolding get_level_diff_rate
level_rate_bounds attacker defender =
    elim (Bool-cases (leb_ℤ penalty_level_diff (defender -ℤ attacker))) [
      | inl far ↦ inl (ground arith, rw (get_level_diff_rate, far) refl)
      | inr near ↦
          let enough : pos 0 ≤ℤ (attacker -ℤ defender) +ℤ pos 29 = ground (
            arith,
            -ℤ_parts defender attacker,
            -ℤ_parts attacker defender,
            +ℤ_parts (attacker -ℤ defender) (pos 29),
          ) in
          inr (
            rw (get_level_diff_rate, near)
              (clamp_rate_bounds (level_rate (attacker -ℤ defender)) (level_rate_low _ enough)))
    ]

-- The final damage is 1 or more, whatever the damage and the levels are.
pub final_damage_positive :
    (damage attacker defender : ℤ) → pos 1 ≤ℤ calculate_final_damage damage attacker defender
unfolding calculate_final_damage
final_damage_positive damage attacker defender =
    at_least (damage *ℤ get_level_diff_rate attacker defender /ℤ base_pct)
  where
    at_least : (n : ℤ) → pos 1 ≤ℤ (if ltb_ℤ n (pos 1) then pos 1 else n)
    at_least n = ground arith
