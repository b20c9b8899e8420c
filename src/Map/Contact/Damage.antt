-- ===== src/Map/Contact/Damage.antt =====
-- What a player suffers in one round of contact damage.
use ll2games_rpg.Prelude.{
  ℕ, ◌+◌, ◌-◌, ◌&&◌, ◌≡◌, Bool, true, false, not, [], ◌∷◌, arith, if◌then◌else◌,
}
use ll2games_rpg.Prelude.Int.{ℤ, pos, pos_part, ◌≤ℤ◌, -ℤ_parts}
use ll2games_rpg.Prelude.Dict.{Dict}
use ll2games_rpg.Monster.{Monster}
use ll2games_rpg.Player.{Player, on_damaged, can_take_any_contact_damage}
use ll2games_rpg.Player.Health.{on_damaged_hp}
use ll2games_rpg.Map.Contact.{is_alive, touch_all, contact}

module _ (touches : ℕ → ℕ → Bool) (contact_damage : ℕ → ℕ → ℕ) (now : ℕ) where
  abbrev damage_of : ℕ → ℕ → ℤ
  damage_of id k = pos (contact_damage id k)

  -- The damage of all living monsters that touch the player.
  abbrev pub total_damage : ℕ → Dict Monster → ℕ
  total_damage id [] = 0
  total_damage id ((k, m) ∷ monsters) =
      (if not m.is_alive then 0 else if not (touches id k) then 0 else contact_damage id k)
      + total_damage id monsters

  on_damaged_left :
      (n : ℕ) (p : Player)
      → pos 0 ≤ℤ p.cur_hp
      → (pos 0 ≤ℤ (on_damaged (pos n) now p).cur_hp)
        × (pos_part (on_damaged (pos n) now p).cur_hp ≡ pos_part p.cur_hp - n)
  on_damaged_left n p h =
      let e = on_damaged_hp (pos n) now p in
      rw e (ground (arith, -ℤ_parts p.cur_hp (pos n)), ground (arith, -ℤ_parts p.cur_hp (pos n)))

  one_touch :
      (living met : Bool) (n : ℕ) (p : Player)
      → pos 0 ≤ℤ p.cur_hp
      → let p' : Player =
          if not living then p else if not met then p else on_damaged (pos n) now p in
        (pos 0 ≤ℤ p'.cur_hp)
        × (pos_part p'.cur_hp
            ≡ pos_part p.cur_hp - (if not living then 0 else if not met then 0 else n))
  one_touch false met n p h = (h, omega arith)
  one_touch true false n p h = (h, omega arith)
  one_touch true true n p h = on_damaged_left n p h

  touch_all_hp :
      (id : ℕ) (monsters : Dict Monster) (p : Player)
      → pos 0 ≤ℤ p.cur_hp
      → (pos 0 ≤ℤ (touch_all touches damage_of now id monsters p).cur_hp)
        × (pos_part (touch_all touches damage_of now id monsters p).cur_hp
            ≡ pos_part p.cur_hp - total_damage id monsters)
  unfolding touch_all
  touch_all_hp id [] p h = (h, omega arith)
  touch_all_hp id ((k, m) ∷ monsters) p h =
      let (left, one) = one_touch m.is_alive (touches id k) (contact_damage id k) p h in
      let (left', rest) = touch_all_hp id monsters _ left in (left', omega (arith, one, rest))

  -- In one round a player who is alive and whose contact cooldown is over loses the damage of all
  -- living monsters that touch the player, down to 0 HP: the cooldown that the first of them starts
  -- does not hold off the others. Any other player keeps the HP. The damages and the HP before are not
  -- negative.
  pub contact_total :
      (monsters : Dict Monster) (id : ℕ) (p : Player)
      → pos 0 ≤ℤ p.cur_hp
      → let after = contact touches damage_of now monsters id p in
        (pos 0 ≤ℤ after.cur_hp)
        × (pos_part after.cur_hp
            ≡ pos_part p.cur_hp
              - (if is_alive p.state && can_take_any_contact_damage now p
                  then total_damage id monsters
                  else 0))
  unfolding contact
  contact_total monsters id p h = branch (is_alive p.state) (can_take_any_contact_damage now p)
    where
      branch :
          (living due : Bool)
          → let after : Player =
              if not living
              then p
              else if not due
              then p
              else touch_all touches damage_of now id monsters p in
            (pos 0 ≤ℤ after.cur_hp)
            × (pos_part after.cur_hp
                ≡ pos_part p.cur_hp - (if living && due then total_damage id monsters else 0))
      branch false due = (h, omega arith)
      branch true false = (h, omega arith)
      branch true true = touch_all_hp id monsters p h
