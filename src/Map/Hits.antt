-- ===== src/Map/Hits.antt =====
-- SERVER/src/CHANNEL/map/MapInstance.cpp, ResolveSkillHit: the hits of one skill on the monsters of a
-- map, with the experience and the drops of those that die. A monster is told by its instance id; the
-- packets that are sent are left out.
pub mod Kills
pub mod Tests
use ll2games_rpg.Prelude.{ℕ, Bool, true, false, Option, none, some, List, [], ◌∷◌, if◌then◌else◌}
use ll2games_rpg.Prelude.Int.{ℤ}
use ll2games_rpg.Prelude.Dict.{Dict, lookup, insert}
use ll2games_rpg.Monster.{Monster, on_damaged}
use ll2games_rpg.Stat.{CharacterStat, add_exp}
use ll2games_rpg.Drop.{DropGroup, set_drop_item}
use ll2games_rpg.Map.Drops.{Ground, spawn_drop_item}

-- The tables that are read: the levels, the drop groups, and the groups that the templates of the
-- monsters name.
pub record Tables : Type 0 where
  pub levels : Dict ℤ
  pub common_groups : Dict DropGroup
  pub unique_groups : Dict DropGroup
  pub common_item_group_id : ℕ → ℕ
  pub unique_item_group_id : ℕ → ℕ

-- What a fight changes: the monsters, the attacker's stats, the ground, the random generator.
pub record Fight (Gen : Type 0) : Type 0 where
  pub monsters : Dict Monster
  pub attacker : CharacterStat
  pub ground : Ground
  pub gen : Gen

pub record Attacker : Type 0 where
  pub address : ℕ
  pub id : ℕ

pub record MonsterHitResult : Type 0 where
  pub monster_instance_id : ℕ
  pub damage : ℤ
  pub cur_hp : ℤ
  pub max_hp : ℤ
  pub dead : Bool

-- `GetLastAttacker`, told by its id.
pub owner_of : Monster → Option ℕ
owner_of m = elim m.last_attacker [ none ↦ none | some address ↦ some m.last_attacker_id ]

abbrev pub hit_result : ℕ → ℤ → Monster → Bool → MonsterHitResult
hit_result id damage m is_dead = record {
  monster_instance_id = id;
  damage = damage;
  cur_hp = m.hp;
  max_hp = m.max_hp;
  dead = is_dead;
}

module _ {Gen : Type 0} (uniform : ℤ → ℤ → Gen → ℤ × Gen) (tables : Tables) (attacker : Attacker)
    (now : ℕ) where
  -- The drops of a dead monster, after the experience.
  abbrev pub rewarded : ℕ → Monster → CharacterStat → Fight Gen → Fight Gen
  rewarded id m stat f =
      let (drops, gen) =
        set_drop_item uniform tables.common_groups tables.unique_groups
          (tables.common_item_group_id id) (tables.unique_item_group_id id) f.gen in
      record f {
        attacker = stat;
        ground = spawn_drop_item (owner_of m) now drops f.ground;
        gen = gen;
      }

  -- The `if(isDead)`; `none` would be a loop of AddExp that does not end.
  pub reward : ℕ → Monster → Fight Gen → Option (Fight Gen)
  reward id m f = elim (add_exp tables.levels m.exp f.attacker) [
    | none ↦ none
    | some (stat, result) ↦ some (rewarded id m stat f)
  ]

  -- The rest of a round, from what OnDamaged has done and answered.
  pub after_hit : ℕ → ℤ → Fight Gen → Monster × Bool → Option (Fight Gen × MonsterHitResult)
  after_hit id damage f (m, false) =
      some (record f { monsters = insert id m f.monsters }, hit_result id damage m false)
  after_hit id damage f (m, true) =
      elim (reward id m (record f { monsters = insert id m f.monsters })) [
        | none ↦ none
        | some f' ↦ some (f', hit_result id damage m true)
      ]

  -- One round: `none` is a pointer to no monster of the map.
  pub resolve_hit : ℕ → ℤ → Fight Gen → Option (Fight Gen × MonsterHitResult)
  resolve_hit id damage f = elim (lookup id f.monsters) [
    | none ↦ none
    | some m ↦ after_hit id damage f (on_damaged now attacker.address attacker.id damage m)
  ]

  pub resolve_skill_hit : List (ℕ × ℤ) → Fight Gen → Option (Fight Gen × List MonsterHitResult)
  resolve_skill_hit [] f = some (f, [])
  resolve_skill_hit ((id, damage) ∷ hits) f = elim (resolve_hit id damage f) [
    | none ↦ none
    | some (f', result) ↦ elim (resolve_skill_hit hits f') [
      | none ↦ none
      | some (f'', results) ↦ some (f'', result ∷ results)
    ]
  ]
