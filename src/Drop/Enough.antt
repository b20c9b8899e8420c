-- ===== src/Drop/Enough.antt =====
-- A group whose table is sound drops as much as it promises.
use ll2games_rpg.Prelude.{
  ℕ, zero, suc, ◌+◌, ◌≡◌, ◌≢◌, if_both, refl, sym, ap, subst, ◌∙◌, Bool, true, false, List, [], ◌∷◌,
  ◌++◌, arith, if◌then◌else◌, length, length-append, All, min,
}
use ll2games_rpg.Prelude.Int.{ℤ, pos, pos_part, ◌≤ℤ◌, ◌<ℤ◌, leb_ℤ, +ℤ_parts}
use ll2games_rpg.Drop.{
  DropEntry, DropGroup, DropResult, Drops, calculate_weight, bad_count, bad_range, drop_result,
  drop_rounds, select_drop_item,
}
use ll2games_rpg.Drop.Select.{Weighed, select_entry-Splits, select_some}
use ll2games_rpg.Drop.Refines.{Uniform}

-- An entry that can be drawn, with a range of counts that is not empty.
abbrev pub Sound : List DropEntry → Type 0
Sound = All (λ e. (pos 0 <ℤ e.weight) × (pos 0 ≤ℤ e.min_count) × (e.min_count ≤ℤ e.max_count))

Sound-Weighed : (es : List DropEntry) → Sound es → Weighed es
Sound-Weighed [] h = tt
Sound-Weighed (e ∷ es) (h, hs) = (omega arith, Sound-Weighed es hs)

weight-Sound : (es : List DropEntry) → Sound es → pos 0 ≤ℤ calculate_weight es
unfolding calculate_weight
weight-Sound [] h = omega arith
weight-Sound (e ∷ es) (h, hs) =
    omega (arith, +ℤ_parts e.weight (calculate_weight es), weight-Sound es hs)

weight_positive :
    (e : DropEntry) (es : List DropEntry)
    → (pos 0 <ℤ e.weight) × (pos 0 ≤ℤ e.min_count) × (e.min_count ≤ℤ e.max_count)
    → Sound es
    → pos 0 <ℤ calculate_weight (e ∷ es)
unfolding calculate_weight
weight_positive e es h hs =
    omega (arith, +ℤ_parts e.weight (calculate_weight es), weight-Sound es hs)

-- The outcome of one draw from a sound list.
Sound-Splits :
    (xs ys : List DropEntry) (e : DropEntry)
    → Sound (xs ++ e ∷ ys)
    → Sound (xs ++ ys) × (bad_count e ≡ false) × (length (xs ++ e ∷ ys) ≡ suc (length (xs ++ ys)))
Sound-Splits [] ys e (h, hs) = (hs, ground arith, refl)
Sound-Splits (x ∷ xs) ys e (h, hs) =
    let (sound, good, size) = Sound-Splits xs ys e hs in ((h, sound), good, ap suc size)

some_left :
    (dup : Bool) (e : DropEntry) (es rest : List DropEntry)
    → dup ≡ true
    → (if dup then e ∷ es else rest) ≢ []
some_left true e es rest h = λ none_left. ground (arith, none_left)
some_left false e es rest h = ground arith

one_more :
    (dup : Bool) (n : ℕ) (e : DropEntry) (es rest : List DropEntry) (items : List DropResult)
    (r : DropResult)
    → length (e ∷ es) ≡ suc (length rest)
    → length (items ++ r ∷ []) + (if dup then n else min n (length (if dup then e ∷ es else rest)))
      ≡ length items + (if dup then suc n else min (suc n) (length (e ∷ es)))
one_more true n e es rest items r size = omega (arith, length-append items (r ∷ []))
one_more false n e es rest items r size = omega (arith, length-append items (r ∷ []))

module _ {κ} {Gen : Type κ} (uniform : ℤ → ℤ → Gen → ℤ × Gen) (in_range : Uniform uniform) where
  drop_rounds_enough :
      (dup : Bool) (n : ℕ) (es : List DropEntry) (items : List DropResult) (g : Gen)
      → (dup ≡ true → es ≢ [])
      → Sound es
      → ((drop_rounds uniform dup n es items g).selected ≡ true)
        × (length (drop_rounds uniform dup n es items g).drop_items
            ≡ length items + (if dup then n else min n (length es)))
  unfolding drop_rounds
  drop_rounds_enough dup zero es items g some_entry h = (refl, ground arith)
  drop_rounds_enough true (suc n) [] items g some_entry h = absurd (some_entry refl refl)
  drop_rounds_enough false (suc n) [] items g some_entry h = (refl, omega arith)
  drop_rounds_enough dup (suc n) (e ∷ es) items g some_entry (h, hs) =
      let sum = calculate_weight (e ∷ es) in
      let positive : pos 0 <ℤ sum = weight_positive e es h hs in
      let heavy : leb_ℤ sum (pos 0) ≡ false = ground arith in
      let w = (uniform (pos 1) sum g).0 in
      let g1 = (uniform (pos 1) sum g).1 in
      let range = in_range (pos 1) sum g (omega arith) in
      let (s, rest, found) =
        select_some w (pos 0) (e ∷ es) (Sound-Weighed (e ∷ es) (h, hs)) (omega arith)
          (omega (arith, +ℤ_parts (pos 0) sum)) in
      let (xs, ys, split, left, _) = select_entry-Splits w (pos 0) (e ∷ es) s rest found in
      let (sound, good, size) = Sound-Splits xs ys s (subst Sound split (h, hs)) in
      let u = uniform s.min_count s.max_count g1 in
      let size' : length (e ∷ es) ≡ suc (length rest) =
        ap length split ∙ size ∙ ap (λ r. suc (length r)) (sym left) in
      let sound' : Sound (if dup then e ∷ es else rest) =
        if_both Sound dup (h, hs) (subst Sound (sym left) sound) in
      let (answer, number) =
        drop_rounds_enough dup n (if dup then e ∷ es else rest) (items ++ drop_result s u.0 ∷ [])
          u.1 (some_left dup e es rest) sound' in
      rw (heavy, found, good, drop_rounds)
        (answer, number ∙ one_more dup n e es rest items (drop_result s u.0) size')

  -- In a group whose range of drops and whose entries are sound (each of positive weight, with a range
  -- of counts that is not empty and not negative), the choice succeeds and adds a number of drops
  -- between `min_drop` and `max_drop`; without duplicates that number is cut at the number of entries.
  pub select_drop_item_enough :
      (group : DropGroup) (items : List DropResult) (g : Gen)
      → bad_range group ≡ false
      → group.entries ≢ []
      → Sound group.entries
      → ((select_drop_item uniform group items g).selected ≡ true)
        × (n : ℕ) × (group.min_drop ≤ℤ pos n)
        × (pos n ≤ℤ group.max_drop)
        × (length (select_drop_item uniform group items g).drop_items
            ≡ length items + (if group.allow_duplicate then n else min n (length group.entries)))
  unfolding select_drop_item
  select_drop_item_enough group items g good some_entry h =
      let u = uniform group.min_drop group.max_drop g in
      let range = in_range group.min_drop group.max_drop g (ground arith) in
      let size = entries_size group.entries some_entry h in
      rw (good, select_drop_item) (size.0, pos_part u.0, ground arith, ground arith, size.1)
    where
      entries_size :
          (es : List DropEntry)
          → es ≢ []
          → Sound es
          → let r : Drops Gen = elim es [
            | [] ↦ record { drop_items = items; selected = false; gen = g }
            | e ∷ es' ↦
                let (drop_count, g1) = uniform group.min_drop group.max_drop g in
                drop_rounds uniform group.allow_duplicate (pos_part drop_count) (e ∷ es') items g1
          ] in
            (r.selected ≡ true)
            × (length r.drop_items
                ≡ length items
                  + (if group.allow_duplicate
                      then pos_part (uniform group.min_drop group.max_drop g).0
                      else min (pos_part (uniform group.min_drop group.max_drop g).0) (length es)))
      entries_size [] some_entry h = absurd (some_entry refl)
      entries_size (e ∷ es) some_entry h =
          let u = uniform group.min_drop group.max_drop g in
          drop_rounds_enough group.allow_duplicate (pos_part u.0) (e ∷ es) items u.1
            (λ same. some_entry) h
