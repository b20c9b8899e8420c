-- ===== src/Combat/Attack/Tests.antt =====
-- A knight strikes to the right at two snails and hits the nearer one.
use mathlib.Core.List.{Perm}
use mathlib.Core.List.Permᴰ
use ll2games_rpg.Prelude.{
  ℕ, ◌+◌, ◌≡◌, refl, inr, true, some, List, length, map, min, ◌++◌, [], ◌∷◌, arith, ltb,
}
use ll2games_rpg.Prelude.Int.{pos}
use ll2games_rpg.Player.{Player, can_attack, may_use, is_stunned, cools_down, use_skill}
use ll2games_rpg.Player.Tests.{knight, slash}
use ll2games_rpg.Combat.Targets.{Cand, can_hit_monsters, comes_before}
use ll2games_rpg.Combat.Targets.Nearest.{Ahead, AreCandidates}
use ll2games_rpg.Combat.Targets.Tests.{snails, all_hit, distance, sort_two}
use ll2games_rpg.Map.Hits.{Fight, MonsterHitResult, resolve_skill_hit}
use ll2games_rpg.Map.Hits.Kills.{kills_of, alive_in}
use ll2games_rpg.Map.Hits.Tests.{no_drops, lowest, hero, fight}
use ll2games_rpg.Combat.Attack.{Battle, Rules, handle_attack, final_hit, put_health, take_health}
use ll2games_rpg.Combat.Attack.Outcome.{handle_attack_carries_out}

abbrev rules : Rules
rules = record {
  skills = (20001, slash) ∷ [];
  max_targets = λ id. pos 1;
  base_damage = λ id. pos 50;
  attacker_level = pos 10;
  monster_level = λ id. pos 8;
}

abbrev battle : Battle ℕ
battle = record { player = knight; fight = record fight { monsters = snails } }

may_strike : can_attack 5000 (some slash) knight ≡ true
unfolding can_attack may_use is_stunned cools_down
may_strike = refl

abbrev paid : Player
paid = use_skill 5000 slash knight

abbrev candidates : List (Cand ℕ)
candidates = can_hit_monsters all_hit distance (pos 1) snails

handle_attack_carries_out_example :
    (hits : List (Cand ℕ)) × (others : List (Cand ℕ)) × (after : Fight ℕ) × (results : List
      MonsterHitResult)
    × (resolve_skill_hit lowest no_drops hero 5000
          (map
            (final_hit lowest no_drops hero 5000 all_hit distance sort_two rules 20001)
            (map (λ c. c.instance_id) hits))
          (record battle.fight { attacker = put_health paid battle.fight.attacker })
        ≡ some (after, results))
    × (handle_attack lowest no_drops hero 5000 all_hit distance sort_two rules 20001 (pos 1) battle
        ≡ some (record { player = take_health after.attacker paid; fight = after }, 1))
    × Perm (hits ++ others) candidates
    × (length hits ≡ min 1 (length candidates))
    × Ahead ltb hits others
    × AreCandidates all_hit distance (pos 1) snails candidates
    × (length results ≡ length hits)
    × (kills_of 2 results + alive_in 2 after.monsters ≡ alive_in 2 snails)
unfolding can_hit_monsters comes_before
handle_attack_carries_out_example =
    handle_attack_carries_out lowest no_drops hero 5000 all_hit distance ltb sort_two rules slash
      (pos 1) battle 2 refl may_strike (inr refl) (omega arith) (refl, (refl, tt))
      ∣ Permᴰ.swap refl refl ∣₁ ((refl, tt), (tt, tt))
