-- ===== src/Player/Skills.antt =====
-- A skill that the check lets through, and its cooldown.
use ll2games_rpg.Prelude.{ℕ, ◌+◌, ◌≤◌, ◌≡◌, true, false, some, arith}
use ll2games_rpg.Prelude.Int.{pos, ◌≤ℤ◌, -ℤ_parts}
use ll2games_rpg.Prelude.Dict.{lookup, insert, lookup-insert}
use ll2games_rpg.Player.{Player, SkillDef, can_attack, use_skill, cools_down}

paid :
    (now : ℕ) (s : SkillDef) (p : Player) → can_attack now (some s) p ≡ true → s.mp_cost ≤ℤ p.cur_mp
unfolding can_attack
paid now s p ok = ground arith

cooling :
    (now later : ℕ) (s : SkillDef) (p : Player)
    → later ≤ now + s.cooldown_ms
    → cools_down later s.skill_id (use_skill now s p) ≡ true
unfolding cools_down use_skill
cooling now later s p h =
    let written : lookup s.skill_id (insert s.skill_id (now + s.cooldown_ms) p.cooldown_end_ms)
        ≡ some (now + s.cooldown_ms) =
      ground (arith, lookup-insert s.skill_id s.skill_id (now + s.cooldown_ms) p.cooldown_end_ms) in
    rw (cools_down, written) (ground arith)

refused :
    (now : ℕ) (s : SkillDef) (p : Player)
    → cools_down now s.skill_id p ≡ true
    → can_attack now (some s) p ≡ false
unfolding can_attack
refused now s p c = ground arith

-- After a skill that `CanAttack` allows, MP is not negative, and `CanAttack` refuses the same skill
-- until its cooldown is over.
pub skill_cooldown :
    (now later : ℕ) (s : SkillDef) (p : Player)
    → can_attack now (some s) p ≡ true
    → later ≤ now + s.cooldown_ms
    → (pos 0 ≤ℤ (use_skill now s p).cur_mp)
      × (can_attack later (some s) (use_skill now s p) ≡ false)
unfolding use_skill
skill_cooldown now later s p ok h = (
  ground (arith, paid now s p ok, -ℤ_parts p.cur_mp s.mp_cost),
  refused later s (use_skill now s p) (cooling now later s p h),
)
