-- ===== src/Monster.antt =====
-- SERVER/src/CHANNEL/domain/Monster.{h,cpp}: the life of a monster, from its spawn over the hits on
-- it to its respawn. Positions are floats and are left out, and so are the fields that only a
-- client is told.
pub mod Life
pub mod Hits
mod Tests
use ll2games_rpg.Prelude.{
  ℕ, zero, suc, ◌+◌, ◌-◌, Bool, true, false, not, ◌&&◌, ◌||◌, Option, none, some, List, [], ◌∷◌,
  ◌==◌, leb, if◌then◌else◌,
}
use ll2games_rpg.Prelude.Int.{ℤ, pos, negsuc, ◌-ℤ◌, leb_ℤ}

pub data MonsterState : Type 0 where
  e_idle e_patrol e_chase e_move e_die e_hit e_range_attack e_dead e_none : MonsterState

-- Times are milliseconds of the clocks that the source reads. `last_attacker` is the player's address.
pub record Monster : Type 0 where
  pub hp : ℤ
  pub max_hp : ℤ
  pub exp : ℤ
  pub is_alive : Bool
  pub dead_request : Bool
  pub dead_time : ℕ
  pub respawn_delay : ℕ
  pub state : MonsterState
  pub last_attacker : Option ℕ
  pub last_attacker_id : ℕ
  pub last_attack_time : ℕ
  pub attack_cooldown : ℕ

-- Init, with the values of the template and of the spawn. The source leaves `m_deadTime` as it was.
pub init : ℤ → ℤ → ℕ → ℕ → ℕ → Monster
init hp exp respawn_delay attack_cooldown dead_time = record {
  hp = hp;
  max_hp = hp;
  exp = exp;
  is_alive = true;
  dead_request = false;
  dead_time = dead_time;
  respawn_delay = respawn_delay;
  state = e_patrol;
  last_attacker = none;
  last_attacker_id = 0;
  last_attack_time = 0;
  attack_cooldown = attack_cooldown;
}

pub dead : ℕ → Monster → Monster
dead now m =
    if m.is_alive && not m.dead_request
    then record m { dead_request = true; dead_time = now; is_alive = false; state = e_die }
    else m

-- The `bool` says that this hit killed the monster.
pub on_damaged : ℕ → ℕ → ℕ → ℤ → Monster → Monster × Bool
on_damaged now attacker attacker_id damage m =
    if not m.is_alive || m.dead_request
    then (m, false)
    else if leb_ℤ damage (pos 0)
    then (m, false)
    else (let hit = record m {
      last_attacker_id = attacker_id;
      last_attacker = some attacker;
      state = e_chase;
      hp = m.hp -ℤ damage;
    } in
        if leb_ℤ hit.hp (pos 0) then (dead now (record hit { hp = pos 0 }), true) else (hit, false))

pub check_respawn_time : ℕ → Monster → Bool
check_respawn_time now m =
    if m.is_alive
    then false
    else if not m.dead_request
    then false
    else leb m.respawn_delay (now - m.dead_time)

pub reset : Monster → Monster
reset m = record m {
  hp = m.max_hp;
  is_alive = true;
  dead_request = false;
  state = e_idle;
  last_attack_time = 0;
  last_attacker = none;
  last_attacker_id = 0;
}

pub is_attack_on_cooldown : ℕ → Monster → Bool
is_attack_on_cooldown now m =
    not (m.last_attack_time == 0 || leb m.attack_cooldown (now - m.last_attack_time))

-- TryRangedAttack; the `bool` says that a projectile was launched.
pub try_ranged_attack : ℕ → Monster → Monster × Bool
try_ranged_attack now m =
    if is_attack_on_cooldown now m
    then (m, false)
    else (record m { last_attack_time = now; state = e_range_attack }, true)
