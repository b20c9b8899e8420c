-- ===== src/Monster/Life.antt =====
-- What every reachable monster satisfies.
use ll2games_rpg.Prelude.{
  ℕ, ◌+◌, ◌≡◌, refl, sym, subst, ◌⊎◌, inl, inr, Bool, true, false, not, some, List, [], ◌∷◌, arith,
  if◌then◌else◌, Bool-cases, if_both, if_cases,
}
use ll2games_rpg.Prelude.Int.{ℤ, pos, ◌-ℤ◌, ◌≤ℤ◌, ◌<ℤ◌, leb_ℤ, -ℤ_parts}
use ll2games_rpg.Monster.{
  Monster, e_die, e_chase, init, dead, on_damaged, check_respawn_time, reset, try_ranged_attack,
  is_attack_on_cooldown,
}

-- A monster is alive with some of its HP left, or it is dead with none and waits for its respawn.
pub record IsValid (m : Monster) : Type 0 where
  pub request : m.dead_request ≡ not m.is_alive
  pub some_hp : m.is_alive ≡ true → (pos 0 <ℤ m.hp) × (m.hp ≤ℤ m.max_hp)
  pub no_hp : m.is_alive ≡ false → (m.hp ≡ pos 0) × (m.state ≡ e_die)
  pub full : pos 0 <ℤ m.max_hp

-- The calls of the map that change a monster. The map resets a monster when its respawn is due, and lets it
-- attack only while it is alive.
pub data Event : Type 0 where
  hits : (now attacker attacker_id : ℕ) (damage : ℤ) → Event
  respawns : (now : ℕ) → Event
  attacks : (now : ℕ) → Event

pub step : Event → Monster → Monster
step (hits now attacker attacker_id damage) m = (on_damaged now attacker attacker_id damage m).0
step (respawns now) m = if check_respawn_time now m then reset m else m
step (attacks now) m = if m.is_alive then (try_ranged_attack now m).0 else m

abbrev pub killed : ℕ → ℕ → ℕ → Monster → Monster
killed now attacker attacker_id m = record m {
  last_attacker_id = attacker_id;
  last_attacker = some attacker;
  hp = pos 0;
  dead_request = true;
  dead_time = now;
  is_alive = false;
  state = e_die;
}

abbrev pub hurt : ℕ → ℕ → ℤ → Monster → Monster
hurt attacker attacker_id damage m = record m {
  last_attacker_id = attacker_id;
  last_attacker = some attacker;
  state = e_chase;
  hp = m.hp -ℤ damage;
}

-- A hit is ignored by a monster that is not alive, and without damage.
pub ignored :
    (now attacker attacker_id : ℕ) (damage : ℤ) (m : Monster)
    → (m.is_alive ≡ false) ⊎ (leb_ℤ damage (pos 0) ≡ true)
    → on_damaged now attacker attacker_id damage m ≡ (m, false)
unfolding on_damaged
ignored now attacker attacker_id damage m h = ground arith

pub kills :
    (now attacker attacker_id : ℕ) (damage : ℤ) (m : Monster)
    → m.is_alive ≡ true
    → m.dead_request ≡ false
    → leb_ℤ damage (pos 0) ≡ false
    → leb_ℤ (m.hp -ℤ damage) (pos 0) ≡ true
    → on_damaged now attacker attacker_id damage m ≡ (killed now attacker attacker_id m, true)
unfolding on_damaged dead
kills now attacker attacker_id damage m alive free d h = ground arith

pub hurts :
    (now attacker attacker_id : ℕ) (damage : ℤ) (m : Monster)
    → m.is_alive ≡ true
    → m.dead_request ≡ false
    → leb_ℤ damage (pos 0) ≡ false
    → leb_ℤ (m.hp -ℤ damage) (pos 0) ≡ false
    → on_damaged now attacker attacker_id damage m ≡ (hurt attacker attacker_id damage m, false)
unfolding on_damaged dead
hurts now attacker attacker_id damage m alive free d h = ground arith

pub on_damaged-IsValid :
    (now attacker attacker_id : ℕ) (damage : ℤ) (m : Monster)
    → IsValid m
    → IsValid (on_damaged now attacker attacker_id damage m).0
on_damaged-IsValid now attacker attacker_id damage m v = elim (Bool-cases m.is_alive) [
  | inr gone ↦
      subst (λ r. IsValid r.0) (sym (ignored now attacker attacker_id damage m (inl gone))) v
  | inl alive ↦
      let free : m.dead_request ≡ false = ground (arith, v.request) in
      elim (Bool-cases (leb_ℤ damage (pos 0))) [
        | inl zero_damage ↦
            subst (λ r. IsValid r.0)
              (sym (ignored now attacker attacker_id damage m (inr zero_damage))) v
        | inr real ↦ elim (Bool-cases (leb_ℤ (m.hp -ℤ damage) (pos 0))) [
          | inl d ↦
              subst (λ r. IsValid r.0)
                (sym (kills now attacker attacker_id damage m alive free real d))
                (record {
                  request = refl;
                  some_hp = λ h. ground arith;
                  no_hp = λ h. (refl, refl);
                  full = v.full;
                })
          | inr l ↦
              subst (λ r. IsValid r.0)
                (sym (hurts now attacker attacker_id damage m alive free real l))
                (record {
                  request = v.request;
                  some_hp = λ h.
                      let (low, high) = v.some_hp h in
                      (ground arith, ground (arith, -ℤ_parts m.hp damage));
                  no_hp = λ h. ground arith;
                  full = v.full;
                })
        ]
      ]
]

reset-IsValid : (m : Monster) → IsValid m → IsValid (reset m)
unfolding reset
reset-IsValid m v = record {
  request = refl;
  some_hp = λ h. (v.full, omega arith);
  no_hp = λ h. ground arith;
  full = v.full;
}

attack-IsValid :
    (now : ℕ) (m : Monster) → m.is_alive ≡ true → IsValid m → IsValid (try_ranged_attack now m).0
unfolding try_ranged_attack
attack-IsValid now m alive v =
    if_both (λ (r : Monster × Bool). IsValid r.0) (is_attack_on_cooldown now m) v
      (record {
        request = v.request;
        some_hp = v.some_hp;
        no_hp = λ h. ground arith;
        full = v.full;
      })

pub step-IsValid : (e : Event) (m : Monster) → IsValid m → IsValid (step e m)
unfolding step
step-IsValid (hits now attacker attacker_id damage) m v =
    on_damaged-IsValid now attacker attacker_id damage m v
step-IsValid (respawns now) m v = if_both IsValid (check_respawn_time now m) (reset-IsValid m v) v
step-IsValid (attacks now) m v =
    if_cases IsValid m.is_alive (λ alive. attack-IsValid now m alive v) (λ gone. v)

pub steps : List Event → Monster → Monster
steps [] m = m
steps (e ∷ es) m = steps es (step e m)

steps-IsValid : (es : List Event) (m : Monster) → IsValid m → IsValid (steps es m)
unfolding steps
steps-IsValid [] m v = v
steps-IsValid (e ∷ es) m v = steps-IsValid es (step e m) (step-IsValid e m v)

-- From its spawn with some HP on, whatever hits, respawn checks and attacks follow, a monster is alive
-- with HP above 0 and at most its maximum, or it is dead with 0 HP in the state E_Die and is due to
-- respawn.
pub life-IsValid :
    (hp exp : ℤ) (delay cooldown dead_time : ℕ) (es : List Event)
    → pos 0 <ℤ hp
    → IsValid (steps es (init hp exp delay cooldown dead_time))
unfolding init
life-IsValid hp exp delay cooldown dead_time es h =
    steps-IsValid es (init hp exp delay cooldown dead_time) (record {
      request = refl;
      some_hp = λ a. (h, omega arith);
      no_hp = λ a. ground arith;
      full = h;
    })

-- A hit reports a kill exactly when it turns a living monster into a dead one.
pub on_damaged_reports :
    (now attacker attacker_id : ℕ) (damage : ℤ) (m : Monster)
    → let (m', killed) = on_damaged now attacker attacker_id damage m in
      (if killed then 1 else 0) + (if m'.is_alive then 1 else 0) ≡ (if m.is_alive then 1 else 0)
unfolding on_damaged dead
on_damaged_reports now attacker attacker_id damage m = ground arith
