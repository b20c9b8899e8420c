-- ===== src/Map/Drops/Owner.antt =====
-- Whose a drop is, and how long it lies.
use ll2games_rpg.Prelude.{
  ℕ, ◌+◌, ◌≤◌, ◌<◌, ◌≡◌, ◌==◌, refl, ◌∙◌, ap, Bool, true, ◌⊎◌, inl, inr, Bool-cases, Option, none,
  some, List, [], ◌∷◌, arith, leb, if◌then◌else◌,
}
use ll2games_rpg.Prelude.Dict.{Dict, lookup, insert, lookup-insert, Distinct, insert-Distinct}
use ll2games_rpg.Inventory.{AddItemResult}
use ll2games_rpg.InventoryManager.{Items, Inventories}
use ll2games_rpg.Drop.{DropResult}
use ll2games_rpg.Map.Drops.{
  DropItems, Ground, dropped, spawn_drop_item, owned_by_other, pickup_drop_item, release,
  check_items, check_drop_item,
}

-- Drops that are spawned later have other ids.
spawn_keeps :
    (o : Option ℕ) (t k : ℕ) (rs : List DropResult) (g : Ground)
    → k < g.drop_id
    → lookup k (spawn_drop_item o t rs g).drop_items ≡ lookup k g.drop_items
unfolding spawn_drop_item
spawn_keeps o t k [] g h = refl
spawn_keeps o t k (r ∷ rs) g h =
    let next : Ground = record {
      drop_items = insert g.drop_id (dropped o t g.drop_id r) g.drop_items;
      drop_id = g.drop_id + 1;
    } in
    ground (
      arith,
      spawn_keeps o t k rs next (omega arith),
      lookup-insert g.drop_id k (dropped o t g.drop_id r) g.drop_items,
    )

spawn-Distinct :
    (o : Option ℕ) (t : ℕ) (rs : List DropResult) (g : Ground)
    → Distinct g.drop_items
    → Distinct (spawn_drop_item o t rs g).drop_items
unfolding spawn_drop_item
spawn-Distinct o t [] g h = h
spawn-Distinct o t (r ∷ rs) g h =
    spawn-Distinct o t rs _ (insert-Distinct g.drop_id (dropped o t g.drop_id r) g.drop_items h)

-- What the check makes of the drop at a position.
abbrev checked : ℕ → Option DropItems → Option DropItems
checked now none = none
checked now (some d) = if leb d.expire_time_ms now then none else some (release now d)

check_items-lookup :
    (now k : ℕ) (items : Dict DropItems)
    → Distinct items
    → lookup k (check_items now items).0 ≡ checked now (lookup k items)
unfolding check_items
check_items-lookup now k [] h = refl
check_items-lookup now k ((j, d) ∷ items) h = elim (Bool-cases (k == j)) [
  | inl same ↦
      let is : k ≡ j = ground arith in
      let none_left : lookup k items ≡ none = rw is h.0 in
      ground (arith, check_items-lookup now k items h.1)
  | inr other ↦ ground (arith, check_items-lookup now k items h.1)
]

-- A drop of a monster, spawned at the time `t` on a ground whose ids are distinct and looked at by
-- `CheckDropItem` at the time `now`, is its owner's alone for 60 seconds, anyone's after that, and
-- gone after 120 seconds, whatever else is spawned with it.
pub drop_timeline :
    (o t now : ℕ) (r : DropResult) (rs : List DropResult) (g : Ground)
    → Distinct g.drop_items
    → lookup g.drop_id (check_drop_item now (spawn_drop_item (some o) t (r ∷ rs) g)).0.drop_items
      ≡ (if leb (t + 120000) now
          then none
          else some (dropped (if leb (t + 60000) now then none else some o) t g.drop_id r))
unfolding check_drop_item spawn_drop_item dropped release
drop_timeline o t now r rs g h =
    let d = dropped (some o) t g.drop_id r in
    let next : Ground = record {
      drop_items = insert g.drop_id d g.drop_items;
      drop_id = g.drop_id + 1;
    } in
    let there : lookup g.drop_id (spawn_drop_item (some o) t rs next).drop_items ≡ some d =
      spawn_keeps (some o) t g.drop_id rs next (omega arith)
      ∙ ground (arith, lookup-insert g.drop_id g.drop_id d g.drop_items) in
    check_items-lookup now g.drop_id (spawn_drop_item (some o) t rs next).drop_items
      (spawn-Distinct (some o) t rs next (insert-Distinct g.drop_id d g.drop_items h))
    ∙ ap (checked now) there
    ∙ ground arith

-- A drop that somebody picks up after a CheckDropItem was less than 120 seconds old at the time of
-- that check, and whoever picks it up is its owner, or the drop was at least 60 seconds old at the
-- time of the check. The pickup itself asks for no time. The ids on the ground are distinct before the
-- spawn.
pub drop_owner :
    (items : Items) (reach : Bool) (o p t now : ℕ) (r : DropResult) (rs : List DropResult)
    (g : Ground) (ms : Inventories) (results : List AddItemResult)
    → Distinct g.drop_items
    → (pickup_drop_item items reach
        (some p)
        g.drop_id
        ms
        results
        (check_drop_item now (spawn_drop_item (some o) t (r ∷ rs) g)).0).picked
      ≡ true
    → (now < t + 120000) × ((p ≡ o) ⊎ (t + 60000 ≤ now))
unfolding pickup_drop_item owned_by_other dropped
drop_owner items reach o p t now r rs g ms results h ok =
    let there = drop_timeline o t now r rs g h in (ground arith, ground arith)
