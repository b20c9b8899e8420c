-- ===== src/Combat/Targets/Nearest.antt =====
-- An attack hits the monsters in front of the others.
use native.Mathlib.Nat.{ℕ_set}
use mathlib.Core.Logic.{∥∥₁_elim}
use mathlib.Core.List.{Perm, Permᴰ}
use ll2games_rpg.Prelude.{
  ℕ, zero, suc, ◌≤◌, Option, Bool-cases, inl, inr, if◌then◌else◌, ◌≡◌, refl, sym, subst, ◌∙◌, ap,
  Bool, true, false, not, ◌&&◌, ◌⊎◌, if_cases, ◌==◌, none, some, List, [], ◌∷◌, ◌++◌, map, arith,
  length, take, drop, length-take, take_drop, min, All,
}
use ll2games_rpg.Prelude.Int.{ℤ, pos, negsuc, pos_part, ◌≤ℤ◌, eqb_ℤ, ltb_ℤ, min_ℤ}
use ll2games_rpg.Prelude.Dict.{Dict, lookup, Distinct}
use ll2games_rpg.Monster.{Monster}
use ll2games_rpg.Combat.Targets.{Cand, comes_before, can_hit_monsters, compute_hit_monsters}

module _ {F : Type 0} (less : F → F → Bool) where
  -- No element comes before one that stands in front of it.
  abbrev pub IsSorted : List (Cand F) → Type 0
  IsSorted [] = Unit
  IsSorted (x ∷ xs) = All (λ y. comes_before less y x ≡ false) xs × IsSorted xs

  -- The second one is not nearer to the attacker, and at the same distance its id is not smaller.
  abbrev pub NotNearer : Cand F → Cand F → Type 0
  NotNearer x y =
      (less y.front x.front ≡ false)
      × (less x.front y.front ≡ false → x.instance_id ≤ y.instance_id)

  -- No element of the second list should have been chosen in place of one of the first.
  abbrev pub Ahead : List (Cand F) → List (Cand F) → Type 0
  Ahead xs ys = All (λ x. All (λ y. NotNearer x y) ys) xs

  sorted-NotNearer : (x y : Cand F) → comes_before less y x ≡ false → NotNearer x y
  unfolding comes_before
  sorted-NotNearer x y h = (ground arith, λ e. ground arith)

  each_sorted-NotNearer :
      (x : Cand F) (ys : List (Cand F))
      → All (λ y. comes_before less y x ≡ false) ys
      → All (λ y. NotNearer x y) ys
  each_sorted-NotNearer x [] h = tt
  each_sorted-NotNearer x (y ∷ ys) (h, hs) = (sorted-NotNearer x y h, each_sorted-NotNearer x ys hs)

  All-drop : (P : Cand F → Type 0) (n : ℕ) (xs : List (Cand F)) → All P xs → All P (drop n xs)
  All-drop P zero xs h = h
  All-drop P (suc n) [] h = h
  All-drop P (suc n) (x ∷ xs) h = All-drop P n xs h.1

  take-Ahead : (n : ℕ) (xs : List (Cand F)) → IsSorted xs → Ahead (take n xs) (drop n xs)
  take-Ahead zero xs h = tt
  take-Ahead (suc n) [] h = tt
  take-Ahead (suc n) (x ∷ xs) h = (
    each_sorted-NotNearer x (drop n xs) (All-drop (λ y. comes_before less y x ≡ false) n xs h.0),
    take-Ahead n xs h.1,
  )

Permᴰ-length {ℓ} : {A : Type ℓ} {l₁ l₂ : List A} → Permᴰ l₁ l₂ → length l₁ ≡ length l₂
Permᴰ-length Permᴰ.nil = refl
Permᴰ-length (Permᴰ.cons e d) = ap suc (Permᴰ-length d)
Permᴰ-length (Permᴰ.swap e f) = refl
Permᴰ-length (Permᴰ.trans d e) = Permᴰ-length d ∙ Permᴰ-length e

perm-length {ℓ} : {A : Type ℓ} {l₁ l₂ : List A} → Perm l₁ l₂ → length l₁ ≡ length l₂
perm-length p = ∥∥₁_elim p (ℕ_set _ _) Permᴰ-length

module _ {F : Type 0} (is_hit : ℤ → ℕ → Bool) (front : ℤ → ℕ → F) where
  -- Living monsters of the map that the attack meets.
  abbrev pub Hittable : ℤ → Dict Monster → List (Cand F) → Type 0
  Hittable dir monsters = All (λ c.
      (m : Monster) × (lookup c.instance_id monsters ≡ some m)
      × (m.is_alive ≡ true)
      × (is_hit dir c.instance_id ≡ true))

  Hittable-behind :
      (dir : ℤ) (id : ℕ) (m : Monster) (monsters : Dict Monster) (cs : List (Cand F))
      → lookup id monsters ≡ none
      → Hittable dir monsters cs
      → Hittable dir ((id, m) ∷ monsters) cs
  Hittable-behind dir id m monsters [] new h = tt
  Hittable-behind dir id m monsters (c ∷ cs) new ((m', found, living, met), h) =
      let other : (c.instance_id == id) ≡ false = ground (arith, found, new) in
      ((m', rw other found, living, met), Hittable-behind dir id m monsters cs new h)

  can_hit_monsters-Hittable :
      (dir : ℤ) (monsters : Dict Monster)
      → Distinct monsters
      → Hittable dir monsters (can_hit_monsters is_hit front dir monsters)
  unfolding can_hit_monsters
  can_hit_monsters-Hittable dir [] d = tt
  can_hit_monsters-Hittable dir ((id, m) ∷ monsters) d =
      let rest = can_hit_monsters is_hit front dir monsters in
      let behind =
        Hittable-behind dir id m monsters rest d.0 (can_hit_monsters-Hittable dir monsters d.1) in
      if_cases (Hittable dir ((id, m) ∷ monsters)) (not m.is_alive) (λ e. behind)
        (λ e.
          if_cases (Hittable dir ((id, m) ∷ monsters)) (not (is_hit dir id)) (λ e'. behind)
            (λ e'. ((m, ground arith, ground arith, ground arith), behind)))

  -- The candidates, by their ids.
  abbrev pub fronts : List (Cand F) → Dict F
  fronts cs = map (λ c. (c.instance_id, c.front)) cs

  -- A living monster of the map that the attack meets, with how far in front it stands.
  abbrev pub candidate : ℤ → ℕ → Option Monster → Option F
  candidate dir id none = none
  candidate dir id (some m) = if m.is_alive && is_hit dir id then some (front dir id) else none

  -- Each candidate stands in the list once, and nothing else does.
  abbrev pub AreCandidates : ℤ → Dict Monster → List (Cand F) → Type 0
  AreCandidates dir monsters cs =
      ((id : ℕ) → lookup id (fronts cs) ≡ candidate dir id (lookup id monsters))
      × Distinct (fronts cs)

  can_hit_monsters-AreCandidates :
      (dir : ℤ) (monsters : Dict Monster)
      → Distinct monsters
      → AreCandidates dir monsters (can_hit_monsters is_hit front dir monsters)
  unfolding can_hit_monsters
  can_hit_monsters-AreCandidates dir [] d = (λ id. refl, tt)
  can_hit_monsters-AreCandidates dir ((j, m) ∷ monsters) d =
      let (exact, once) = can_hit_monsters-AreCandidates dir monsters d.1 in
      let missing : lookup j (fronts (can_hit_monsters is_hit front dir monsters)) ≡ none =
        exact j ∙ ap (candidate dir j) d.0 in
      (
        λ id. elim (Bool-cases (id == j)) [
          | inl same ↦ let is : id ≡ j = ground arith in ground (arith, missing, exact id)
          | inr other ↦ ground (arith, exact id)
        ],
        if_cases Entry (not m.is_alive) (λ e. once)
            (λ e. if_cases Entry (not (is_hit dir j)) (λ e'. once) (λ e'. (missing, once))),
      )
    where
      Entry : List (Cand F) → Type 0
      Entry cs = Distinct (fronts cs)

  -- For an attack to the left or to the right and a limit that is not negative, on a map with distinct ids,
  -- where `std::sort` leaves a permutation that is sorted by the comparison it is given: the monsters that
  -- are hit are candidates, as many as the limit admits, and none of the candidates that are left out is
  -- nearer in front of the attacker than one that is hit, nor at the same distance with a smaller id. The
  -- candidates are all the living monsters of the map that the attack meets, each once, with their
  -- distances, and no others.
  pub compute_hit_monsters_nearest :
      (less : F → F → Bool) (sort : List (Cand F) → List (Cand F)) (max_targets dir : ℤ)
      (monsters : Dict Monster)
      → Distinct monsters
      → (dir ≡ negsuc 0) ⊎ (dir ≡ pos 1)
      → pos 0 ≤ℤ max_targets
      → Perm
          (sort (can_hit_monsters is_hit front dir monsters))
          (can_hit_monsters is_hit front dir monsters)
      → IsSorted less (sort (can_hit_monsters is_hit front dir monsters))
      → (hits : List (Cand F)) × (others : List (Cand F)) × (compute_hit_monsters is_hit front sort
            max_targets dir monsters
          ≡ some (map (λ c. c.instance_id) hits))
        × Perm (hits ++ others) (can_hit_monsters is_hit front dir monsters)
        × (length hits
            ≡ min (pos_part max_targets) (length (can_hit_monsters is_hit front dir monsters)))
        × Ahead less hits others
        × Hittable dir monsters (can_hit_monsters is_hit front dir monsters)
        × AreCandidates dir monsters (can_hit_monsters is_hit front dir monsters)
  unfolding compute_hit_monsters
  compute_hit_monsters_nearest less sort max_targets dir monsters d side limit perm sorted =
      let all = can_hit_monsters is_hit front dir monsters in
      let l = sort all in
      let n = pos_part (min_ℤ max_targets (pos (length l))) in
      let same_size : length l ≡ length all = perm-length perm in
      let valid_side : (not (eqb_ℤ dir (negsuc 0)) && not (eqb_ℤ dir (pos 1))) ≡ false =
        ground arith in
      let not_negative : ltb_ℤ (min_ℤ max_targets (pos (length l))) (pos 0) ≡ false =
        ground arith in
      (
        take n l,
        drop n l,
        rw (valid_side, not_negative, compute_hit_monsters) refl,
        subst (λ k. Perm k all) (sym (take_drop n l)) perm,
        length-take n l ∙ ground (arith, same_size),
        take-Ahead less n l sorted,
        can_hit_monsters-Hittable dir monsters d,
        can_hit_monsters-AreCandidates dir monsters d,
      )
