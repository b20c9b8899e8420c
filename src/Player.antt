-- ===== src/Player.antt =====
-- SERVER/src/CHANNEL/domain/Player.cpp: skills with their MP and cooldowns, and what changes HP and MP.
pub mod Skills
pub mod Health
pub mod Items
pub mod Tests
use ll2games_rpg.Prelude.{
  ℕ, ◌+◌, Bool, true, false, not, ◌&&◌, Option, none, some, ◌==◌, leb, if◌then◌else◌,
}
use ll2games_rpg.Prelude.Int.{ℤ, pos, ◌+ℤ◌, ◌-ℤ◌, ltb_ℤ, leb_ℤ}
use ll2games_rpg.Prelude.Dict.{Dict, lookup, insert}

pub data PlayerState : Type 0 where
  idle move jump attack stunned dead_state : PlayerState

-- What the code reads of a SkillDef.
pub record SkillDef : Type 0 where
  pub skill_id : ℕ
  pub is_basic_attack : Bool
  pub root_job : ℕ
  pub mp_cost : ℤ
  pub cooldown_ms : ℕ

-- Times are milliseconds. `next_contact` is `none` for the source's -1.
pub record Player : Type 0 where
  pub state : PlayerState
  pub root_job : ℕ
  pub learned_skills : Dict ℕ
  pub cooldown_end_ms : Dict ℕ
  pub cur_hp : ℤ
  pub max_hp : ℤ
  pub cur_mp : ℤ
  pub max_mp : ℤ
  pub next_contact : Option ℕ
  pub contact_cooldown_ms : ℕ

unfoldable pub is_stunned : PlayerState → Bool
is_stunned stunned = true
is_stunned _ = false

unfoldable pub cools_down : ℕ → ℕ → Player → Bool
cools_down now id p = elim (lookup id p.cooldown_end_ms) [ none ↦ false | some end ↦ leb now end ]

-- The job and the learned skills, which a basic attack does not need.
unfoldable pub may_use : SkillDef → Player → Bool
may_use s p =
    if s.is_basic_attack
    then true
    else if not (p.root_job == s.root_job)
    then false
    else elim (lookup s.skill_id p.learned_skills) [ none ↦ false | some level ↦ true ]

unfoldable pub can_attack : ℕ → Option SkillDef → Player → Bool
can_attack now none p = false
can_attack now (some s) p =
    if is_stunned p.state
    then false
    else if not (may_use s p)
    then false
    else if ltb_ℤ p.cur_mp s.mp_cost
    then false
    else not (cools_down now s.skill_id p)

pub use_skill : ℕ → SkillDef → Player → Player
use_skill now s p = record p {
  cooldown_end_ms = insert s.skill_id (now + s.cooldown_ms) p.cooldown_end_ms;
  cur_mp = p.cur_mp -ℤ s.mp_cost;
}

pub add_hp : ℤ → Player → Player
add_hp n p = record p {
  cur_hp = if ltb_ℤ p.max_hp (p.cur_hp +ℤ n) then p.max_hp else p.cur_hp +ℤ n;
}

pub add_mp : ℤ → Player → Player
add_mp n p = record p {
  cur_mp = if ltb_ℤ p.max_mp (p.cur_mp +ℤ n) then p.max_mp else p.cur_mp +ℤ n;
}

pub can_take_any_contact_damage : ℕ → Player → Bool
can_take_any_contact_damage now p = elim p.next_contact [ none ↦ true | some t ↦ leb t now ]

-- `Dead`
pub die : Player → Player
die p = record p { state = dead_state }

pub on_damaged : ℤ → ℕ → Player → Player
on_damaged damage now p =
    let left = p.cur_hp -ℤ damage in
    let p' = if leb_ℤ left (pos 0) then die p else p in
    record p' {
      cur_hp = if leb_ℤ left (pos 0) then pos 0 else left;
      next_contact = some (now + p.contact_cooldown_ms);
    }
