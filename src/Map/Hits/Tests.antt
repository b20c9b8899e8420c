-- ===== src/Map/Hits/Tests.antt =====
-- A monster is hit twice, and the second hit kills it.
use ll2games_rpg.Prelude.{ℕ, suc, ◌+◌, ◌≡◌, refl, true, false, none, some, List, [], ◌∷◌, length}
use ll2games_rpg.Prelude.Int.{ℤ, pos}
use ll2games_rpg.Monster.{Monster, e_patrol}
use ll2games_rpg.Stat.{CharacterStat}
use ll2games_rpg.Map.Hits.{Tables, Fight, Attacker, MonsterHitResult, resolve_skill_hit}
use ll2games_rpg.Map.Hits.Kills.{alive_in, kills_of, resolve_skill_hit_kills}

abbrev snail : Monster
snail = record {
  hp = pos 8;
  max_hp = pos 8;
  exp = pos 3;
  is_alive = true;
  dead_request = false;
  dead_time = 0;
  respawn_delay = 5000;
  state = e_patrol;
  last_attacker = none;
  last_attacker_id = 0;
  last_attack_time = 0;
  attack_cooldown = 1000;
}

abbrev novice : CharacterStat
novice = record {
  base = record { str = pos 4; dex = pos 4; intel = pos 4; luck = pos 4 };
  derived = record { max_hp = pos 50; max_mp = pos 30 };
  exp_stat = record { level = 1; exp = pos 3 };
  cur_hp = pos 7;
  cur_mp = pos 9;
  remain_ap = 0;
}

abbrev pub no_drops : Tables
no_drops = record {
  levels = (1, pos 10) ∷ [];
  common_groups = [];
  unique_groups = [];
  common_item_group_id = λ id. 0;
  unique_item_group_id = λ id. 0;
}

abbrev pub fight : Fight ℕ
fight = record {
  monsters = (1, snail) ∷ [];
  attacker = novice;
  ground = record { drop_items = []; drop_id = 0 };
  gen = 0;
}

abbrev pub lowest : ℤ → ℤ → ℕ → ℤ × ℕ
lowest lo hi g = (lo, suc g)

abbrev pub hero : Attacker
hero = record { address = 77; id = 5 }

abbrev two_hits : List (ℕ × ℤ)
two_hits = (1, pos 5) ∷ (1, pos 5) ∷ []

resolve_skill_hit_kills_example :
    (f' : Fight ℕ) × (results : List MonsterHitResult) × (resolve_skill_hit lowest no_drops hero
        9000 two_hits fight
      ≡ some (f', results))
    × (length results ≡ 2)
    × (kills_of 1 results + alive_in 1 f'.monsters ≡ alive_in 1 fight.monsters)
resolve_skill_hit_kills_example =
    resolve_skill_hit_kills lowest no_drops hero 9000 two_hits fight 1
      ((snail, refl), ((snail, refl), tt))
