-- ===== src/Player/Health.antt =====
-- HP under healing and damage.
use ll2games_rpg.Prelude.{ℕ, ◌+◌, ◌≡◌, refl, arith, leb, if◌then◌else◌}
use ll2games_rpg.Prelude.Int.{ℤ, pos, ◌-ℤ◌, ◌≤ℤ◌, leb_ℤ, +ℤ_parts, -ℤ_parts}
use ll2games_rpg.Player.{Player, dead_state, add_hp, die, on_damaged, can_take_any_contact_damage}

abbrev pub InRange : Player → Type 0
InRange p = (pos 0 ≤ℤ p.cur_hp) × (p.cur_hp ≤ℤ p.max_hp)

add_hp-InRange : (n : ℤ) (p : Player) → InRange p → pos 0 ≤ℤ n → InRange (add_hp n p)
unfolding add_hp
add_hp-InRange n p h positive = ground (arith, +ℤ_parts p.cur_hp n)

pub on_damaged_hp :
    (n : ℤ) (now : ℕ) (p : Player)
    → (on_damaged n now p).cur_hp ≡ (if leb_ℤ (p.cur_hp -ℤ n) (pos 0) then pos 0 else p.cur_hp -ℤ n)
unfolding on_damaged
on_damaged_hp n now p = refl

on_damaged_max : (n : ℤ) (now : ℕ) (p : Player) → (on_damaged n now p).max_hp ≡ p.max_hp
unfolding on_damaged die
on_damaged_max n now p = ground arith

on_damaged-InRange :
    (n : ℤ) (now : ℕ) (p : Player) → InRange p → pos 0 ≤ℤ n → InRange (on_damaged n now p)
on_damaged-InRange n now p h positive =
    ground (arith, on_damaged_hp n now p, on_damaged_max n now p, -ℤ_parts p.cur_hp n)

-- HP between 0 and the maximum stays there under healing and under damage, neither of them negative;
-- damage that reaches the HP makes the player dead; and after a hit no contact damage is due before
-- the player's cooldown has passed.
pub health-InRange :
    (n : ℤ) (now later : ℕ) (p : Player)
    → InRange p
    → pos 0 ≤ℤ n
    → InRange (add_hp n p)
      × InRange (on_damaged n now p)
      × ((on_damaged n now p).state
          ≡ (if leb_ℤ (p.cur_hp -ℤ n) (pos 0) then dead_state else p.state))
      × (can_take_any_contact_damage later (on_damaged n now p)
          ≡ leb (now + p.contact_cooldown_ms) later)
unfolding on_damaged die can_take_any_contact_damage
health-InRange n now later p h positive = (
  add_hp-InRange n p h positive,
  on_damaged-InRange n now p h positive,
  ground arith,
  ground arith,
)
