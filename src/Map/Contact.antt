-- ===== src/Map/Contact.antt =====
-- SERVER/src/CHANNEL/map/MapInstance.cpp, ProcessContactDamage: the damage of the monsters that touch
-- a player. The geometry is the parameter `touches`, of the ids of a player and a monster; the damage
-- of CombatService::ApplyContactDamage is the parameter `contact_damage`.
pub mod Damage
mod Tests
use ll2games_rpg.Prelude.{ℕ, Bool, true, false, not, List, [], ◌∷◌, if◌then◌else◌}
use ll2games_rpg.Prelude.Int.{ℤ, pos, ltb_ℤ}
use ll2games_rpg.Prelude.Dict.{Dict}
use ll2games_rpg.Monster.{Monster}
use ll2games_rpg.Player.{Player, PlayerState, dead_state, can_take_any_contact_damage, on_damaged}

-- Player::IsAlive
pub is_alive : PlayerState → Bool
is_alive dead_state = false
is_alive _ = true

module _ (touches : ℕ → ℕ → Bool) (contact_damage : ℕ → ℕ → ℤ) (now : ℕ) where
  -- The inner loop, over the monsters.
  pub touch_all : ℕ → Dict Monster → Player → Player
  touch_all id [] p = p
  touch_all id ((k, m) ∷ monsters) p = touch_all id monsters (
      if not m.is_alive
      then p
      else if not (touches id k)
      then p
      else on_damaged (contact_damage id k) now p)

  -- One round of the outer loop.
  pub contact : Dict Monster → ℕ → Player → Player
  contact monsters id p =
      if not (is_alive p.state)
      then p
      else if not (can_take_any_contact_damage now p)
      then p
      else touch_all id monsters p

  -- Null pointers in the table are left out.
  pub process_contact_damage : Dict Monster → Dict Player → Dict Player
  process_contact_damage monsters [] = []
  process_contact_damage monsters ((id, p) ∷ players) =
      (id, contact monsters id p) ∷ process_contact_damage monsters players
