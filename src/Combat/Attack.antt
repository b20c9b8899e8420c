-- ===== src/Combat/Attack.antt =====
-- SERVER/src/CHANNEL/service/CombatService.cpp, HandleAttack and HandleBasicAttack: from the request to
-- the hits on the map. CalculateSkillBaseDamage, which is on floats, is the parameter `base_damage`.
pub mod Outcome
mod Tests
use ll2games_rpg.Prelude.{ℕ, Bool, not, Option, none, some, List, [], ◌∷◌, map, if◌then◌else◌}
use ll2games_rpg.Prelude.Int.{ℤ}
use ll2games_rpg.Prelude.Dict.{Dict, lookup}
use ll2games_rpg.Player.{Player, SkillDef, can_attack, use_skill}
use ll2games_rpg.Stat.{CharacterStat}
use ll2games_rpg.Combat.{calculate_final_damage}
use ll2games_rpg.Combat.Targets.{Cand, compute_hit_monsters}
use ll2games_rpg.Map.Hits.{Tables, Fight, Attacker, resolve_skill_hit}

-- The attacker and the map. The player's HP and MP and those of the attacker's stats in the fight stand for
-- the same `m_stat`.
pub record Battle (Gen : Type 0) : Type 0 where
  pub player : Player
  pub fight : Fight Gen

-- `m_stat` with the numbers of the player, and back: AddExp refills them when a level is reached.
pub put_health : Player → CharacterStat → CharacterStat
put_health p stat = record stat {
  cur_hp = p.cur_hp;
  cur_mp = p.cur_mp;
  derived = record { max_hp = p.max_hp; max_mp = p.max_mp };
}

pub take_health : CharacterStat → Player → Player
take_health stat p = record p {
  cur_hp = stat.cur_hp;
  max_hp = stat.derived.max_hp;
  cur_mp = stat.cur_mp;
  max_mp = stat.derived.max_mp;
}

-- What the code reads besides: the skills with their limits of targets, and the levels.
pub record Rules : Type 0 where
  pub skills : Dict SkillDef
  pub max_targets : ℕ → ℤ
  pub base_damage : ℕ → ℤ
  pub attacker_level : ℤ
  pub monster_level : ℕ → ℤ

module _ {Gen F : Type 0} (uniform : ℤ → ℤ → Gen → ℤ × Gen) (tables : Tables) (attacker : Attacker)
    (now : ℕ) (is_hit : ℤ → ℕ → Bool) (front : ℤ → ℕ → F) (sort : List (Cand F) → List (Cand F))
    (rules : Rules) where
  -- A monster with its final damage.
  abbrev pub final_hit : ℕ → ℕ → ℕ × ℤ
  final_hit skill_id id = (
    id,
    calculate_final_damage (rules.base_damage skill_id) rules.attacker_level
        (rules.monster_level id),
  )

  -- After UseSkill: `none` is an exception, or a pointer to no monster.
  pub strike : ℕ → ℤ → Battle Gen → Option (Battle Gen × ℕ)
  strike skill_id dir b =
      elim (compute_hit_monsters is_hit front sort (rules.max_targets skill_id) dir
        b.fight.monsters) [
          | none ↦ none
          | some ids ↦
              elim (resolve_skill_hit uniform tables attacker now (map (final_hit skill_id) ids)
                (record b.fight { attacker = put_health b.player b.fight.attacker })) [
                  | none ↦ none
                  | some (fight, results) ↦
                      some
                        (record { player = take_health fight.attacker b.player; fight = fight }, 1)
                ]
        ]

  -- HandleAttack. HandleBasicAttack is the same with the weapon's type for the skill id.
  pub handle_attack : ℕ → ℤ → Battle Gen → Option (Battle Gen × ℕ)
  handle_attack skill_id dir b = elim (lookup skill_id rules.skills) [
    | none ↦ some (b, 0)
    | some skill ↦
        if not (can_attack now (some skill) b.player)
        then some (b, 0)
        else strike skill_id dir (record b { player = use_skill now skill b.player })
  ]
