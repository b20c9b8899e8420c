-- ===== src/Drop.antt =====
-- SERVER/src/CHANNEL/manager/DropManager.cpp with the structs of SERVER/include/COMMON/DropInfos.h:
-- what a killed monster drops. Item ids and the names of the groups are only compared, so they are
-- naturals. `std::uniform_int_distribution` over the generator is the parameter `uniform`.
pub mod Select
pub mod Refines
pub mod Enough
mod Tests
use ll2games_rpg.Prelude.{
  ℕ, zero, suc, Bool, true, false, ◌||◌, Option, none, some, List, [], ◌∷◌, ◌++◌, if◌then◌else◌,
}
use ll2games_rpg.Prelude.Int.{ℤ, pos, pos_part, ◌+ℤ◌, ltb_ℤ, leb_ℤ}
use ll2games_rpg.Prelude.Dict.{Dict, lookup}

pub data DropType : Type 0 where
  gold item : DropType

pub record DropEntry : Type 0 where
  pub drop_type : DropType
  pub item_id : ℕ
  pub weight : ℤ
  pub min_count : ℤ
  pub max_count : ℤ

pub record DropGroup : Type 0 where
  pub min_drop : ℤ
  pub max_drop : ℤ
  pub allow_duplicate : Bool
  pub entries : List DropEntry

pub record DropResult : Type 0 where
  pub drop_type : DropType
  pub item_id : ℕ
  pub count : ℤ

pub calculate_weight : List DropEntry → ℤ
calculate_weight [] = pos 0
calculate_weight (e ∷ entries) = e.weight +ℤ calculate_weight entries

-- What stays of the entries when one behind `e` is taken.
pub keep_entry :
    DropEntry → Option (DropEntry × List DropEntry) → Option (DropEntry × List DropEntry)
keep_entry e none = none
keep_entry e (some (selected, rest)) = some (selected, e ∷ rest)

-- The loop over `idx`: the first entry whose accumulated weight reaches `drop_weight`, with what
-- `entries.erase(entries.begin() + idx)` leaves.
pub select_entry : ℤ → ℤ → List DropEntry → Option (DropEntry × List DropEntry)
select_entry drop_weight acc_weight [] = none
select_entry drop_weight acc_weight (e ∷ entries) = elim (leb_ℤ e.weight (pos 0)) [
  | true ↦ keep_entry e (select_entry drop_weight acc_weight entries)
  | false ↦ elim (leb_ℤ drop_weight (acc_weight +ℤ e.weight)) [
    | true ↦ some (e, entries)
    | false ↦ keep_entry e (select_entry drop_weight (acc_weight +ℤ e.weight) entries)
  ]
]

abbrev pub bad_count : DropEntry → Bool
bad_count e =
    ltb_ℤ e.min_count (pos 0) || ltb_ℤ e.max_count (pos 0) || ltb_ℤ e.max_count e.min_count

abbrev pub bad_range : DropGroup → Bool
bad_range group =
    ltb_ℤ group.min_drop (pos 0)
    || ltb_ℤ group.max_drop (pos 0)
    || ltb_ℤ group.max_drop group.min_drop

abbrev pub drop_result : DropEntry → ℤ → DropResult
drop_result e n = record { drop_type = e.drop_type; item_id = e.item_id; count = n }

-- The drops that were collected, the `bool` that is returned, and the generator afterwards.
pub record Drops {κ} (Gen : Type κ) : Type κ where
  pub drop_items : List DropResult
  pub selected : Bool
  pub gen : Gen

module _ {κ} {Gen : Type κ} (uniform : ℤ → ℤ → Gen → ℤ × Gen) where
  -- The loop over `i`, with the rounds that are left.
  pub drop_rounds : Bool → ℕ → List DropEntry → List DropResult → Gen → Drops Gen
  drop_rounds allow_duplicate zero entries items g = record {
    drop_items = items;
    selected = true;
    gen = g;
  }
  drop_rounds allow_duplicate (suc n) [] items g = record {
    drop_items = items;
    selected = true;
    gen = g;
  }
  drop_rounds allow_duplicate (suc n) (e ∷ es) items g =
      let sum_weight = calculate_weight (e ∷ es) in
      elim (leb_ℤ sum_weight (pos 0)) [
        | true ↦ record { drop_items = items; selected = true; gen = g }
        | false ↦
            let (drop_weight, g1) = uniform (pos 1) sum_weight g in
            elim (select_entry drop_weight (pos 0) (e ∷ es)) [
              | none ↦ record { drop_items = items; selected = true; gen = g1 }
              | some (selected_item, rest) ↦ elim (bad_count selected_item) [
                | true ↦ record { drop_items = items; selected = false; gen = g1 }
                | false ↦
                    let (n_items, g2) =
                      uniform selected_item.min_count selected_item.max_count g1 in
                    drop_rounds allow_duplicate n (if allow_duplicate then e ∷ es else rest)
                      (items ++ drop_result selected_item n_items ∷ []) g2
              ]
            ]
      ]

  pub select_drop_item : DropGroup → List DropResult → Gen → Drops Gen
  select_drop_item group items g =
      if bad_range group
      then record { drop_items = items; selected = false; gen = g }
      else elim group.entries [
        | [] ↦ record { drop_items = items; selected = false; gen = g }
        | e ∷ es ↦
            let (drop_count, g1) = uniform group.min_drop group.max_drop g in
            drop_rounds group.allow_duplicate (pos_part drop_count) (e ∷ es) items g1
      ]

  -- The unique group is drawn only when the common one has succeeded.
  pub both_groups : DropGroup → DropGroup → Gen → List DropResult × Gen
  both_groups common unique g =
      if ltb_ℤ common.max_drop common.min_drop
      then ([], g)
      else if ltb_ℤ unique.max_drop unique.min_drop
      then ([], g)
      else (let r = select_drop_item common [] g in
          if r.selected
          then (let r' = select_drop_item unique r.drop_items r.gen in (r'.drop_items, r'.gen))
          else (r.drop_items, r.gen))

  pub set_drop_item : Dict DropGroup → Dict DropGroup → ℕ → ℕ → Gen → List DropResult × Gen
  set_drop_item common_groups unique_groups common_group unique_group g =
      elim (lookup common_group common_groups) [
        | none ↦ ([], g)
        | some common ↦ elim (lookup unique_group unique_groups) [
          | none ↦ ([], g)
          | some unique ↦ both_groups common unique g
        ]
      ]
