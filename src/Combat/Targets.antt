-- ===== src/Combat/Targets.antt =====
-- SERVER/src/CHANNEL/service/CombatService.cpp, ComputeHitMonsters: which monsters of a map an attack
-- hits. The geometry is a parameter: `is_hit` says for an attack direction and the id of a monster
-- whether the attack meets its collider, and `front` how far in front of the attacker it stands, in
-- a type with the comparison `less` for the source's `float`. `std::sort` is the parameter `sort`.
pub mod Nearest
pub mod Tests
use ll2games_rpg.Prelude.{
  ℕ, Bool, true, false, not, ◌&&◌, Option, none, some, List, [], ◌∷◌, map, ltb, if◌then◌else◌,
  length, take,
}
use ll2games_rpg.Prelude.Int.{ℤ, pos, negsuc, pos_part, ltb_ℤ, eqb_ℤ, min_ℤ}
use ll2games_rpg.Prelude.Dict.{Dict}
use ll2games_rpg.Monster.{Monster}

-- `Cand`; the monster is told by its instance id.
pub record Cand (F : Type 0) : Type 0 where
  pub instance_id : ℕ
  pub front : F

module _ {F : Type 0} (less : F → F → Bool) where
  -- The comparison that is given to `std::sort`.
  unfoldable pub comes_before : Cand F → Cand F → Bool
  comes_before a b =
      if less a.front b.front
      then true
      else if less b.front a.front
      then false
      else ltb a.instance_id b.instance_id

module _ {F : Type 0} (is_hit : ℤ → ℕ → Bool) (front : ℤ → ℕ → F) where
  -- The loop over the monsters.
  unfoldable pub can_hit_monsters : ℤ → Dict Monster → List (Cand F)
  can_hit_monsters dir [] = []
  can_hit_monsters dir ((id, m) ∷ monsters) =
      let rest = can_hit_monsters dir monsters in
      if not m.is_alive
      then rest
      else if not (is_hit dir id)
      then rest
      else record { instance_id = id; front = front dir id } ∷ rest

  -- The ids of the monsters, or `none` for the exception of `reserve` on a negative `max_targets`.
  pub compute_hit_monsters :
      (List (Cand F) → List (Cand F)) → ℤ → ℤ → Dict Monster → Option (List ℕ)
  compute_hit_monsters sort max_targets dir monsters =
      if not (eqb_ℤ dir (negsuc 0)) && not (eqb_ℤ dir (pos 1))
      then some []
      else (let sorted = sort (can_hit_monsters dir monsters) in
          let n = min_ℤ max_targets (pos (length sorted)) in
          if ltb_ℤ n (pos 0)
          then none
          else some (map (λ c. c.instance_id) (take (pos_part n) sorted)))
