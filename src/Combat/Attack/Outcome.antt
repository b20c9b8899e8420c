-- ===== src/Combat/Attack/Outcome.antt =====
-- What an attack that is allowed comes to.
use mathlib.Core.Logic.{∥∥₁_elim}
use mathlib.Core.Bool.{Bool-set}
use mathlib.Core.List.{Perm, Permᴰ}
use ll2games_rpg.Prelude.{
  ℕ, suc, ◌+◌, ◌≡◌, refl, ◌∙◌, ap, Bool, true, false, ◌&&◌, ◌⊎◌, Option, none, some, List, [], ◌∷◌,
  ◌++◌, map, arith, length, min,
}
use ll2games_rpg.Prelude.Int.{ℤ, pos, negsuc, pos_part, ◌≤ℤ◌}
use ll2games_rpg.Prelude.Dict.{Dict, lookup, Distinct}
use ll2games_rpg.Monster.{Monster}
use ll2games_rpg.Player.{SkillDef, can_attack, use_skill}
use ll2games_rpg.Combat.Targets.{Cand, can_hit_monsters}
use ll2games_rpg.Combat.Targets.Nearest.{
  IsSorted, Hittable, Ahead, AreCandidates, compute_hit_monsters_nearest,
}
use ll2games_rpg.Map.Hits.{Tables, Fight, Attacker, MonsterHitResult, resolve_skill_hit}
use ll2games_rpg.Map.Hits.Kills.{OnMap, kills_of, alive_in, resolve_skill_hit_kills}
use ll2games_rpg.Combat.Attack.{
  Battle, Rules, final_hit, strike, handle_attack, put_health, take_health,
}

-- A Boolean test on all elements does not depend on their order.
all_of {ℓ} : {A : Type ℓ} → (A → Bool) → List A → Bool
all_of f [] = true
all_of f (x ∷ xs) = f x && all_of f xs

all_of-Permᴰ {ℓ} :
    {A : Type ℓ} (f : A → Bool) {l₁ l₂ : List A} → Permᴰ l₁ l₂ → all_of f l₁ ≡ all_of f l₂
unfolding all_of
all_of-Permᴰ f Permᴰ.nil = refl
all_of-Permᴰ f (Permᴰ.cons e d) = ground (arith, ap f e, all_of-Permᴰ f d)
all_of-Permᴰ f (Permᴰ.swap e e') = ground (arith, ap f e, ap f e')
all_of-Permᴰ f (Permᴰ.trans d d') = all_of-Permᴰ f d ∙ all_of-Permᴰ f d'

all_of-Perm {ℓ} :
    {A : Type ℓ} (f : A → Bool) {l₁ l₂ : List A} → Perm l₁ l₂ → all_of f l₁ ≡ all_of f l₂
all_of-Perm f p = ∥∥₁_elim p (Bool-set _ _) (all_of-Permᴰ f)

all_of-front {ℓ} :
    {A : Type ℓ} (f : A → Bool) (xs ys : List A) → all_of f (xs ++ ys) ≡ true → all_of f xs ≡ true
unfolding all_of
all_of-front f [] ys h = refl
all_of-front f (x ∷ xs) ys h = ground (arith, all_of-front f xs ys)

known {ℓ} : {A : Type ℓ} → Option A → Bool
known none = false
known (some a) = true

known_some {ℓ} : {A : Type ℓ} (o : Option A) → known o ≡ true → (a : A) × (o ≡ some a)
unfolding known
known_some none h = absurd (ground arith)
known_some (some a) h = (a, refl)

-- The candidate is a monster of the map.
abbrev on_map : {F : Type 0} → Dict Monster → Cand F → Bool
on_map ms c = known (lookup c.instance_id ms)

module _ {F : Type 0} (is_hit : ℤ → ℕ → Bool) (front : ℤ → ℕ → F) where
  Hittable-on_map :
      (dir : ℤ) (ms : Dict Monster) (cs : List (Cand F))
      → Hittable is_hit front dir ms cs
      → all_of (on_map ms) cs ≡ true
  unfolding all_of known
  Hittable-on_map dir ms [] h = refl
  Hittable-on_map dir ms (c ∷ cs) ((m, found, living, met), h) =
      ground (arith, found, Hittable-on_map dir ms cs h)

  OnMap-hits :
      (ms : Dict Monster) (damage : ℕ → ℕ × ℤ) (cs : List (Cand F))
      → ((id : ℕ) → (damage id).0 ≡ id)
      → all_of (on_map ms) cs ≡ true
      → OnMap ms (map damage (map (λ c. c.instance_id) cs))
  unfolding all_of
  OnMap-hits ms damage [] e h = tt
  OnMap-hits ms damage (c ∷ cs) e h =
      let (m, found) = known_some (lookup c.instance_id ms) (ground arith) in
      ((m, rw (e c.instance_id) found), OnMap-hits ms damage cs e (ground arith))

length-hits {ℓ} :
    {A B C : Type ℓ} (g : B → C) (f : A → B) (xs : List A) → length (map g (map f xs)) ≡ length xs
length-hits g f [] = refl
length-hits g f (x ∷ xs) = ap suc (length-hits g f xs)

module _ {Gen F : Type 0} (uniform : ℤ → ℤ → Gen → ℤ × Gen) (tables : Tables) (attacker : Attacker)
    (now : ℕ) (is_hit : ℤ → ℕ → Bool) (front : ℤ → ℕ → F) (less : F → F → Bool)
    (sort : List (Cand F) → List (Cand F)) (rules : Rules) where
  -- An attack that `CanAttack` allows, to the left or to the right, with a limit of targets that is
  -- not negative, on a map with distinct ids, where `std::sort` sorts, is carried out completely.
  -- UseSkill changes the player; the monsters that are hit are those that come first among the living
  -- monsters that the attack meets, as many as the limit admits; the map and the attacker's stats are
  -- what ResolveSkillHit makes of the hits on them, each with its final damage, and the player's HP
  -- and MP afterwards are those of these stats; there is one report for each hit, and each monster
  -- that dies of it is reported as killed once.
  pub handle_attack_carries_out :
      (skill : SkillDef) (dir : ℤ) (b : Battle Gen) (j : ℕ)
      → lookup skill.skill_id rules.skills ≡ some skill
      → can_attack now (some skill) b.player ≡ true
      → (dir ≡ negsuc 0) ⊎ (dir ≡ pos 1)
      → pos 0 ≤ℤ rules.max_targets skill.skill_id
      → Distinct b.fight.monsters
      → Perm
          (sort (can_hit_monsters is_hit front dir b.fight.monsters))
          (can_hit_monsters is_hit front dir b.fight.monsters)
      → IsSorted less (sort (can_hit_monsters is_hit front dir b.fight.monsters))
      → let paid = use_skill now skill b.player in
        let candidates = can_hit_monsters is_hit front dir b.fight.monsters in
        let damage = final_hit uniform tables attacker now is_hit front sort rules skill.skill_id in
        (hits : List (Cand F)) × (others : List (Cand F)) × (fight : Fight Gen) × (results : List
          MonsterHitResult)
        × (resolve_skill_hit uniform tables attacker now
              (map damage (map (λ c. c.instance_id) hits))
              (record b.fight { attacker = put_health paid b.fight.attacker })
            ≡ some (fight, results))
        × (handle_attack uniform tables attacker now is_hit front sort rules skill.skill_id dir b
            ≡ some (record { player = take_health fight.attacker paid; fight = fight }, 1))
        × Perm (hits ++ others) candidates
        × (length hits ≡ min (pos_part (rules.max_targets skill.skill_id)) (length candidates))
        × Ahead less hits others
        × AreCandidates is_hit front dir b.fight.monsters candidates
        × (length results ≡ length hits)
        × (kills_of j results + alive_in j fight.monsters ≡ alive_in j b.fight.monsters)
  unfolding handle_attack strike
  handle_attack_carries_out skill dir b j known_skill ok side limit distinct perm sorted =
      let id = skill.skill_id in
      let ms = b.fight.monsters in
      let (hits, others, chosen, all, few, ahead, hittable, exact) =
        compute_hit_monsters_nearest is_hit front less sort (rules.max_targets id) dir ms distinct
          side limit perm sorted in
      let on : all_of (on_map ms) hits ≡ true =
        all_of-front (on_map ms) hits others
          (all_of-Perm (on_map ms) all ∙ Hittable-on_map is_hit front dir ms _ hittable) in
      let damage = final_hit uniform tables attacker now is_hit front sort rules id in
      let targets = map damage (map (λ c. c.instance_id) hits) in
      let start = record b.fight {
        attacker = put_health (use_skill now skill b.player) b.fight.attacker;
      } in
      let (fight, results, ends, size, accounts) =
        resolve_skill_hit_kills uniform tables attacker now targets start j
          (OnMap-hits is_hit front ms damage hits (λ i. refl) on) in
      (
        hits,
        others,
        fight,
        results,
        ends,
        rw (known_skill, ok, handle_attack, strike, chosen, ends) refl,
        all,
        few,
        ahead,
        exact,
        size ∙ length-hits damage (λ c. c.instance_id) hits,
        accounts,
      )
