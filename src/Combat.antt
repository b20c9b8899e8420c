-- ===== src/Combat.antt =====
-- The integer arithmetic of SERVER/src/CHANNEL/service/CombatService.{h,cpp}: the rate for the
-- difference of levels, and the final damage.
pub mod Rate
pub mod Targets
pub mod Attack
use ll2games_rpg.Prelude.{ℕ, if◌then◌else◌}
use ll2games_rpg.Prelude.Int.{ℤ, pos, ◌+ℤ◌, ◌-ℤ◌, ◌*ℤ◌, ◌/ℤ◌, ltb_ℤ, leb_ℤ}

abbrev pub min_pct : ℤ
min_pct = pos 30

abbrev pub max_pct : ℤ
max_pct = pos 120

abbrev pub base_pct : ℕ
base_pct = 100

abbrev pub penalty_level_diff : ℤ
penalty_level_diff = pos 30

abbrev pub penalty_pct : ℤ
penalty_pct = pos 5

-- 100 and half a percent for each level, rounded towards 0.
pub level_rate : ℤ → ℤ
level_rate diff = pos base_pct +ℤ diff *ℤ pos 5 /ℤ 10

pub clamp_rate : ℤ → ℤ
clamp_rate rate =
    if ltb_ℤ rate min_pct then min_pct else if ltb_ℤ max_pct rate then max_pct else rate

pub get_level_diff_rate : ℤ → ℤ → ℤ
get_level_diff_rate attacker defender =
    if leb_ℤ penalty_level_diff (defender -ℤ attacker)
    then penalty_pct
    else clamp_rate (level_rate (attacker -ℤ defender))

-- Both overloads of CalculateFinalDamage, on the damage and the two levels.
pub calculate_final_damage : ℤ → ℤ → ℤ → ℤ
calculate_final_damage damage attacker defender =
    let scaled = damage *ℤ get_level_diff_rate attacker defender /ℤ base_pct in
    if ltb_ℤ scaled (pos 1) then pos 1 else scaled
