-- ===== src/Combat/Targets/Tests.antt =====
-- Two monsters in front of an attacker who may hit one of them.
use mathlib.Core.List.{Perm}
use mathlib.Core.List.Permᴰ
use ll2games_rpg.Prelude.{
  ℕ, ◌≡◌, refl, inr, Bool, true, false, none, some, List, [], ◌∷◌, ◌++◌, map, min, ltb,
  if◌then◌else◌, length, arith,
}
use ll2games_rpg.Prelude.Int.{ℤ, pos}
use ll2games_rpg.Prelude.Dict.{Dict}
use ll2games_rpg.Monster.{Monster, e_patrol}
use ll2games_rpg.Combat.Targets.{Cand, comes_before, can_hit_monsters, compute_hit_monsters}
use ll2games_rpg.Combat.Targets.Nearest.{
  Ahead, Hittable, AreCandidates, compute_hit_monsters_nearest,
}

abbrev snail : Monster
snail = record {
  hp = pos 8;
  max_hp = pos 8;
  exp = pos 3;
  is_alive = true;
  dead_request = false;
  dead_time = 0;
  respawn_delay = 5000;
  state = e_patrol;
  last_attacker = none;
  last_attacker_id = 0;
  last_attack_time = 0;
  attack_cooldown = 1000;
}

abbrev pub snails : Dict Monster
snails = (1, snail) ∷ (2, snail) ∷ []

abbrev pub all_hit : ℤ → ℕ → Bool
all_hit dir id = true

-- The second one is nearer.
abbrev pub distance : ℤ → ℕ → ℕ
distance dir id = if ltb id 2 then 30 else 10

-- A sort that is right for two elements.
abbrev pub sort_two : List (Cand ℕ) → List (Cand ℕ)
sort_two (a ∷ b ∷ []) = if comes_before ltb b a then b ∷ a ∷ [] else a ∷ b ∷ []
sort_two cs = cs

only_the_nearer :
    compute_hit_monsters all_hit distance sort_two (pos 1) (pos 1) snails ≡ some (2 ∷ [])
unfolding compute_hit_monsters can_hit_monsters comes_before
only_the_nearer = refl

wrong_side : compute_hit_monsters all_hit distance sort_two (pos 1) (pos 0) snails ≡ some []
unfolding compute_hit_monsters
wrong_side = refl

compute_hit_monsters_nearest_example :
    (hits : List (Cand ℕ)) × (others : List (Cand ℕ)) × (compute_hit_monsters all_hit distance
        sort_two
        (pos 1)
        (pos 1)
        snails
      ≡ some (map (λ c. c.instance_id) hits))
    × Perm (hits ++ others) (can_hit_monsters all_hit distance (pos 1) snails)
    × (length hits ≡ min 1 (length (can_hit_monsters all_hit distance (pos 1) snails)))
    × Ahead ltb hits others
    × Hittable all_hit distance (pos 1) snails (can_hit_monsters all_hit distance (pos 1) snails)
    × AreCandidates all_hit distance
        (pos 1)
        snails
        (can_hit_monsters all_hit distance (pos 1) snails)
unfolding can_hit_monsters comes_before
compute_hit_monsters_nearest_example =
    compute_hit_monsters_nearest all_hit distance ltb sort_two (pos 1) (pos 1) snails
      (refl, (refl, tt)) (inr refl) (omega arith) ∣ Permᴰ.swap refl refl ∣₁ ((refl, tt), (tt, tt))
