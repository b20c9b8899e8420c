-- ===== src/Map/Contact/Tests.antt =====
-- A wounded knight between two snails.
use ll2games_rpg.Prelude.{ℕ, ◌-◌, ◌≡◌, ◌&&◌, Bool, true, refl, [], arith, if◌then◌else◌}
use ll2games_rpg.Prelude.Int.{pos, pos_part, ◌≤ℤ◌}
use ll2games_rpg.Player.{can_take_any_contact_damage}
use ll2games_rpg.Player.Tests.{knight}
use ll2games_rpg.Combat.Targets.Tests.{snails}
use ll2games_rpg.Map.Contact.{contact, is_alive, process_contact_damage}
use ll2games_rpg.Map.Contact.Damage.{total_damage, contact_total}

abbrev always : ℕ → ℕ → Bool
always id k = true

abbrev ten_each : ℕ → ℕ → ℕ
ten_each id k = 10

nobody : process_contact_damage always (λ id k. pos 10) 9000 snails [] ≡ []
unfolding process_contact_damage
nobody = refl

contact_total_example :
    (pos 0 ≤ℤ (contact always (λ id k. pos (ten_each id k)) 9000 snails 5 knight).cur_hp)
    × (pos_part (contact always (λ id k. pos (ten_each id k)) 9000 snails 5 knight).cur_hp
        ≡ 50
          - (if is_alive knight.state && can_take_any_contact_damage 9000 knight
              then total_damage always ten_each 9000 5 snails
              else 0))
contact_total_example = contact_total always ten_each 9000 snails 5 knight (omega arith)
