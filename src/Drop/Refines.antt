-- ===== src/Drop/Refines.antt =====
-- The drops of `DropManager` against a description that knows no order of the draws: a bag of
-- entries from which one entry after another is taken.
use mathlib.Core.List.{append-nil, append_assoc}
use ll2games_rpg.Prelude.{
  ℕ, zero, suc, ◌+◌, ◌≤◌, ◌≡◌, sym, ap, ◌∙◌, Bool, true, false, inl, inr, List, [], ◌∷◌, ◌++◌,
  arith, if◌then◌else◌, ◌==◌, Bool-cases, Option-cases, length,
}
use ll2games_rpg.Prelude.Int.{ℤ, pos, pos_part, ◌≤ℤ◌, leb_ℤ}
use ll2games_rpg.Drop.{
  DropEntry, DropGroup, DropResult, Drops, calculate_weight, select_entry, bad_count, bad_range,
  drop_result, drop_rounds, select_drop_item,
}
use ll2games_rpg.Drop.Select.{Splits, select_entry-Splits}

-- An outcome of a group: each drop is an entry of positive weight, in a number that it admits, and
-- unless duplicates are allowed the entry is gone afterwards.
pub data Drawn (allow_duplicate : Bool) : List DropEntry → List DropResult → Type 0 where
  stop : {entries : List DropEntry} → Drawn allow_duplicate entries []
  draw :
      {entries rest : List DropEntry} {e : DropEntry} {n : ℤ} {drops : List DropResult}
      → Splits entries e rest
      → pos 0 ≤ℤ e.min_count
      → e.min_count ≤ℤ n
      → n ≤ℤ e.max_count
      → Drawn allow_duplicate (if allow_duplicate then entries else rest) drops
      → Drawn allow_duplicate entries (drop_result e n ∷ drops)

-- `r` has added an outcome of at most `n` drops to `items`.
abbrev pub Adds {κ} :
    {Gen : Type κ} → Bool → ℕ → List DropEntry → List DropResult → Drops Gen → Type 0
Adds dup n entries items r =
    (drops : List DropResult) × (r.drop_items ≡ items ++ drops)
    × (length drops ≤ n)
    × Drawn dup entries drops

abbrev pub Uniform {κ} : {Gen : Type κ} → (ℤ → ℤ → Gen → ℤ × Gen) → Type κ
Uniform {Gen = Gen} uniform =
    (lo hi : ℤ) (g : Gen) → lo ≤ℤ hi → (lo ≤ℤ (uniform lo hi g).0) × ((uniform lo hi g).0 ≤ℤ hi)

module _ {κ} {Gen : Type κ} (uniform : ℤ → ℤ → Gen → ℤ × Gen) (in_range : Uniform uniform) where
  nothing-Adds :
      (dup : Bool) (n : ℕ) (es : List DropEntry) (items : List DropResult) (b : Bool) (g : Gen)
      → Adds dup n es items (record { drop_items = items; selected = b; gen = g })
  nothing-Adds dup n es items b g = ([], sym (append-nil items), omega arith, stop)

  drop_rounds-Adds :
      (dup : Bool) (n : ℕ) (es : List DropEntry) (items : List DropResult) (g : Gen)
      → Adds dup n es items (drop_rounds uniform dup n es items g)
  unfolding drop_rounds
  drop_rounds-Adds dup zero es items g = nothing-Adds dup zero es items true g
  drop_rounds-Adds dup (suc n) [] items g = nothing-Adds dup (suc n) [] items true g
  drop_rounds-Adds dup (suc n) (e ∷ es) items g =
      let sum = calculate_weight (e ∷ es) in
      let w = (uniform (pos 1) sum g).0 in
      let g1 = (uniform (pos 1) sum g).1 in
      elim (Bool-cases (leb_ℤ sum (pos 0))) [
        | inl light ↦ rw (light, drop_rounds) (nothing-Adds dup (suc n) (e ∷ es) items true g)
        | inr heavy ↦ elim (Option-cases (select_entry w (pos 0) (e ∷ es))) [
          | inl nothing ↦
              rw (heavy, nothing, drop_rounds) (nothing-Adds dup (suc n) (e ∷ es) items true g1)
          | inr ((s, rest), found) ↦ elim (Bool-cases (bad_count s)) [
            | inl bad ↦
                rw (heavy, found, bad, drop_rounds)
                  (nothing-Adds dup (suc n) (e ∷ es) items false g1)
            | inr good ↦
                let u = uniform s.min_count s.max_count g1 in
                let range = in_range s.min_count s.max_count g1 (ground arith) in
                let (drops, added, few, drawn) =
                  drop_rounds-Adds dup n (if dup then e ∷ es else rest)
                    (items ++ drop_result s u.0 ∷ []) u.1 in
                rw (heavy, found, good, drop_rounds)
                  (
                    drop_result s u.0 ∷ drops,
                    added ∙ append_assoc items (drop_result s u.0 ∷ []) drops,
                    omega arith,
                    draw (select_entry-Splits w (pos 0) (e ∷ es) s rest found) (ground arith)
                        range.0 range.1 drawn,
                  )
          ]
        ]
      ]

  -- What `SelectDropItem` adds to the list, whatever it answers, is an outcome of the group, and has
  -- at most `max_drop` drops: each of an entry of positive weight, in a number that the entry admits,
  -- and of an entry that an earlier drop has not used up, unless the group allows duplicates. The
  -- hypothesis is that the distribution stays between its bounds.
  pub select_drop_item-Drawn :
      (group : DropGroup) (items : List DropResult) (g : Gen)
      → (drops : List DropResult) × ((select_drop_item uniform group items g).drop_items
          ≡ items ++ drops)
        × (length drops ≤ pos_part group.max_drop)
        × Drawn group.allow_duplicate group.entries drops
  unfolding select_drop_item
  select_drop_item-Drawn group items g = elim (Bool-cases (bad_range group)) [
    | inl bad ↦
        rw (bad, select_drop_item)
          (nothing-Adds group.allow_duplicate _ group.entries items false g)
    | inr good ↦ rw (good, select_drop_item) (from_entries good group.entries)
  ]
    where
      from_entries :
          bad_range group ≡ false
          → (es : List DropEntry)
          → Adds group.allow_duplicate (pos_part group.max_drop) es items (elim es [
            | [] ↦ record { drop_items = items; selected = false; gen = g }
            | e ∷ es' ↦
                let (drop_count, g1) = uniform group.min_drop group.max_drop g in
                drop_rounds uniform group.allow_duplicate (pos_part drop_count) (e ∷ es') items g1
          ])
      from_entries good [] = nothing-Adds group.allow_duplicate _ [] items false g
      from_entries good (e ∷ es) =
          let u = uniform group.min_drop group.max_drop g in
          let range = in_range group.min_drop group.max_drop g (ground arith) in
          let (drops, added, few, drawn) =
            drop_rounds-Adds group.allow_duplicate (pos_part u.0) (e ∷ es) items u.1 in
          (drops, added, ground arith, drawn)

abbrev pub drops_of : ℕ → List DropResult → ℕ
drops_of id [] = 0
drops_of id (d ∷ drops) = (if d.item_id == id then 1 else 0) + drops_of id drops

abbrev pub entries_of : ℕ → List DropEntry → ℕ
entries_of id [] = 0
entries_of id (e ∷ es) = (if e.item_id == id then 1 else 0) + entries_of id es

entries_of-append :
    (id : ℕ) (xs ys : List DropEntry)
    → entries_of id (xs ++ ys) ≡ entries_of id xs + entries_of id ys
entries_of-append id [] ys = omega arith
entries_of-append id (x ∷ xs) ys = omega (arith, entries_of-append id xs ys)

-- In an outcome without duplicates an item drops at most as often as the group has entries of it.
pub drops_of-Drawn :
    (id : ℕ) (es : List DropEntry) (drops : List DropResult)
    → Drawn false es drops
    → drops_of id drops ≤ entries_of id es
drops_of-Drawn id es _ stop = omega arith
drops_of-Drawn id es _
      (draw {rest = rest} {e = e} {drops = drops} (xs, ys, split, left, heavy) lo a b d) =
    let ih = drops_of-Drawn id rest drops d in
    let now = ap (entries_of id) split in
    let after = ap (entries_of id) left in
    ground (arith, entries_of-append id xs (e ∷ ys), entries_of-append id xs ys)
