-- ===== src/Drop/Select.antt =====
-- The weighted choice of `DropManager::SelectDropItem`: which weights choose which entry.
use ll2games_rpg.Prelude.{
  ◌≡◌, refl, ap, false, inl, inr, Option, none, some, List, [], ◌∷◌, ◌++◌, arith, Bool-cases, All,
}
use ll2games_rpg.Prelude.Int.{ℤ, pos, ◌+ℤ◌, ◌≤ℤ◌, ◌<ℤ◌, leb_ℤ, +ℤ_parts, int_laws}
use ll2games_rpg.Drop.{DropEntry, calculate_weight, keep_entry, select_entry}

-- An entry that is not to be chosen is one of weight 0.
abbrev pub Weighed : List DropEntry → Type 0
Weighed = All (λ e. pos 0 ≤ℤ e.weight)

weight-Weighed : (es : List DropEntry) → Weighed es → pos 0 ≤ℤ calculate_weight es
unfolding calculate_weight
weight-Weighed [] h = omega arith
weight-Weighed (e ∷ es) (h, hs) =
    omega (arith, +ℤ_parts e.weight (calculate_weight es), weight-Weighed es hs)

select_from :
    (w acc : ℤ) (xs : List DropEntry) (e : DropEntry) (ys : List DropEntry)
    → Weighed xs
    → acc +ℤ calculate_weight xs <ℤ w
    → w ≤ℤ (acc +ℤ calculate_weight xs) +ℤ e.weight
    → select_entry w acc (xs ++ e ∷ ys) ≡ some (e, xs ++ ys)
unfolding select_entry keep_entry calculate_weight
select_from w acc [] e ys h lo hi =
    ground (arith, +ℤ_parts acc (pos 0), +ℤ_parts acc e.weight, +ℤ_parts (acc +ℤ pos 0) e.weight)
select_from w acc (x ∷ xs) e ys (h, hs) lo hi = elim (Bool-cases (leb_ℤ x.weight (pos 0))) [
  | inl light ↦
      rw (light, select_entry)
        (ap (keep_entry x) (select_from w acc xs e ys hs (grind int_laws) (grind int_laws)))
  | inr heavy ↦
      let later : leb_ℤ w (acc +ℤ x.weight) ≡ false = grind (int_laws, weight-Weighed xs hs) in
      rw (heavy, later, select_entry)
        (ap (keep_entry x)
          (select_from w (acc +ℤ x.weight) xs e ys hs (grind int_laws) (grind int_laws)))
]

-- A draw between 1 and the sum of the weights falls to some entry.
pub select_some :
    (w acc : ℤ) (es : List DropEntry)
    → Weighed es
    → acc <ℤ w
    → w ≤ℤ acc +ℤ calculate_weight es
    → (e : DropEntry) × (rest : List DropEntry) × (select_entry w acc es ≡ some (e, rest))
unfolding select_entry keep_entry calculate_weight
select_some w acc [] hs lo hi = absurd (omega int_laws)
select_some w acc (x ∷ es) (h, hs) lo hi = elim (Bool-cases (leb_ℤ x.weight (pos 0))) [
  | inl light ↦
      let (e, rest, r) = select_some w acc es hs lo (grind int_laws) in
      (e, x ∷ rest, rw (light, select_entry) (ap (keep_entry x) r))
  | inr heavy ↦ elim (Bool-cases (leb_ℤ w (acc +ℤ x.weight))) [
    | inl here ↦ (x, es, rw (heavy, here, select_entry) refl)
    | inr later ↦
        let (e, rest, r) =
          select_some w (acc +ℤ x.weight) es hs (grind int_laws) (grind int_laws) in
        (e, x ∷ rest, rw (heavy, later, select_entry) (ap (keep_entry x) r))
  ]
]

-- `e` is an entry of positive weight, and `rest` are the others in their order.
abbrev pub Splits : List DropEntry → DropEntry → List DropEntry → Type 0
Splits es e rest =
    (xs : List DropEntry) × (ys : List DropEntry) × (es ≡ xs ++ e ∷ ys)
    × (rest ≡ xs ++ ys)
    × (pos 0 <ℤ e.weight)

keep_entry-Splits :
    (x : DropEntry) (es : List DropEntry) (o : Option (DropEntry × List DropEntry))
    → ((e : DropEntry) (rest : List DropEntry) → o ≡ some (e, rest) → Splits es e rest)
    → (e : DropEntry) (rest : List DropEntry) → keep_entry x o ≡ some (e, rest)
    → Splits (x ∷ es) e rest
unfolding keep_entry
keep_entry-Splits x es none f e rest h = absurd (ground arith)
keep_entry-Splits x es (some (e', rest')) f e rest h =
    let (xs, ys, split, left, heavy) = f e' rest' refl in (x ∷ xs, ys, cc, cc, ground arith)

-- What is chosen is an entry of positive weight, and erasing it leaves the others in their order.
pub select_entry-Splits :
    (w acc : ℤ) (es : List DropEntry) (e : DropEntry) (rest : List DropEntry)
    → select_entry w acc es ≡ some (e, rest)
    → Splits es e rest
unfolding select_entry
select_entry-Splits w acc [] e rest h = absurd (ground arith)
select_entry-Splits w acc (x ∷ es) e rest h = elim (Bool-cases (leb_ℤ x.weight (pos 0))) [
  | inl light ↦
      keep_entry-Splits x es (select_entry w acc es) (select_entry-Splits w acc es) e rest
        (rw (light, select_entry) at h)
  | inr heavy ↦ elim (Bool-cases (leb_ℤ w (acc +ℤ x.weight))) [
    | inl here ↦
        let h' : some (x, es) ≡ some (e, rest) = rw (heavy, here, select_entry) at h in
        ([], es, ground arith, ground arith, ground arith)
    | inr later ↦
        keep_entry-Splits x es (select_entry w (acc +ℤ x.weight) es)
          (select_entry-Splits w (acc +ℤ x.weight) es) e rest (rw (heavy, later, select_entry) at h)
  ]
]

-- When no weight is negative, the draw of a number `w` chooses each entry for exactly its share of the
-- numbers: those above the weights of the entries before it and up to its own weight more; and the
-- entry's removal leaves the others.
pub select_entry_share :
    (w : ℤ) (xs : List DropEntry) (e : DropEntry) (ys : List DropEntry)
    → Weighed xs
    → calculate_weight xs <ℤ w
    → w ≤ℤ calculate_weight xs +ℤ e.weight
    → select_entry w (pos 0) (xs ++ e ∷ ys) ≡ some (e, xs ++ ys)
select_entry_share w xs e ys h lo hi =
    select_from w (pos 0) xs e ys h (grind int_laws) (grind int_laws)
