-- ===== src/Inventory/Move.antt =====
-- `Inventory::MoveItemSlot` swaps the contents of two slots.
use ll2games_rpg.Prelude.{
  ℕ, ◌≡◌, ◌≢◌, ◌==◌, sym, true, false, inl, inr, some, ◌⊎◌, List, arith, Bool-cases, Option-cases,
}
use ll2games_rpg.Prelude.Int.{int_laws, eq_of_parts, eq_parts}
use ll2games_rpg.Prelude.Dict.{lookup, insert, lookup-insert}
use ll2games_rpg.Inventory.{
  InventorySlot, Inventory, InventorySlotUpdate, MoveItem, find_slot, move_item_slot, swap_slots,
}
use ll2games_rpg.Inventory.Held.{held, held-insert, count_of}

-- A move that succeeded swapped two slots.
move_item_slot_cases :
    (inv : Inventory) (move : MoveItem) (updates : List InventorySlotUpdate)
    → ((move_item_slot inv move updates).2 ≡ false) × ((move_item_slot inv move updates).0 ≡ inv)
      ⊎ ((from to : InventorySlot) × (move.from_slot_pos ≢ move.to_slot_pos)
          × (lookup move.from_slot_pos inv.slots ≡ some from)
          × (lookup move.to_slot_pos inv.slots ≡ some to)
          × (from.item_id ≢ 0)
          × ((move_item_slot inv move updates).2 ≡ true)
          × ((move_item_slot inv move updates).0 ≡ swap_slots inv move from to))
unfolding move_item_slot
move_item_slot_cases inv move updates = elim (Option-cases (lookup move.from_slot_pos inv.slots)) [
  | inl e ↦ inl (ground arith, ground arith)
  | inr (from, e) ↦ elim (Option-cases (lookup move.to_slot_pos inv.slots)) [
    | inl e' ↦ inl (ground arith, ground arith)
    | inr (to, e') ↦ elim (Bool-cases (move.from_slot_pos == move.to_slot_pos)) [
      | inl same ↦ inl (ground arith, ground arith)
      | inr apart ↦ elim (Bool-cases (from.item_id == 0)) [
        | inl empty ↦ inl (ground arith, ground arith)
        | inr full ↦ inr (from, to, ground arith, e, e', ground arith, ground arith, ground arith)
      ]
    ]
  ]
]

-- A move, whether it succeeds or fails, keeps how much is held of every item.
pub move_item_slot_conserves :
    (inv : Inventory) (move : MoveItem) (updates : List InventorySlotUpdate) (y : ℕ)
    → held y (move_item_slot inv move updates).0.slots ≡ held y inv.slots
unfolding swap_slots count_of
move_item_slot_conserves inv move updates y = elim (move_item_slot_cases inv move updates) [
  | inl (_, same) ↦ rw same
  | inr (from, to, apart, ef, et, full, ok, r) ↦
      let from' : InventorySlot = record from {
        item_id = to.item_id;
        item_count = to.item_count;
      } in
      let to' : InventorySlot = record to {
        item_id = from.item_id;
        item_count = from.item_count;
      } in
      let et' : lookup move.to_slot_pos (insert move.from_slot_pos from' inv.slots) ≡ some to =
        ground (arith, lookup-insert move.from_slot_pos move.to_slot_pos from' inv.slots) in
      rw r (
        eq_of_parts _ _ (
          omega (
            int_laws,
            eq_parts (held-insert y move.from_slot_pos from' from inv.slots ef),
            eq_parts (held-insert y move.to_slot_pos to' to _ et'),
          )))
]

-- The move of an item between two slots.
swaps :
    (inv : Inventory) (move : MoveItem) (updates : List InventorySlotUpdate)
    (from to : InventorySlot)
    → move.from_slot_pos ≢ move.to_slot_pos
    → lookup move.from_slot_pos inv.slots ≡ some from
    → lookup move.to_slot_pos inv.slots ≡ some to
    → from.item_id ≢ 0
    → ((move_item_slot inv move updates).2 ≡ true)
      × ((move_item_slot inv move updates).0 ≡ swap_slots inv move from to)
unfolding move_item_slot
swaps inv move updates from to apart ef et full = (ground arith, ground arith)

abbrev pub reverse_move : MoveItem → MoveItem
reverse_move move = record { from_slot_pos = move.to_slot_pos; to_slot_pos = move.from_slot_pos }

-- After a move that succeeds, the move in the other direction succeeds too and puts every slot
-- back as it was.
pub move_item_slot_undo :
    (inv : Inventory) (move : MoveItem) (updates us : List InventorySlotUpdate) (k : ℕ)
    → (move_item_slot inv move updates).2 ≡ true
    → let back = move_item_slot (move_item_slot inv move updates).0 (reverse_move move) us in
      (back.2 ≡ true) × (find_slot back.0 k ≡ find_slot inv k)
unfolding swap_slots find_slot
move_item_slot_undo inv move updates us k ok = elim (move_item_slot_cases inv move updates) [
  | inl (failed, _) ↦ cc
  | inr (from, to, apart, ef, et, full, _, r) ↦
      let a = move.from_slot_pos in
      let b = move.to_slot_pos in
      let from' : InventorySlot = record from {
        item_id = to.item_id;
        item_count = to.item_count;
      } in
      let to' : InventorySlot = record to {
        item_id = from.item_id;
        item_count = from.item_count;
      } in
      let m = insert a from' inv.slots in
      let inv' = swap_slots inv move from to in
      let ef' : lookup a inv'.slots ≡ some from' =
        ground (arith, lookup-insert a a from' inv.slots, lookup-insert b a to' m) in
      let et' : lookup b inv'.slots ≡ some to' = ground (arith, lookup-insert b b to' m) in
      let (done, r') =
        swaps inv' (reverse_move move) us to' from' (λ e. apart (sym e)) et' ef' full in
      rw r (
        done,
        rw r' (
            ground (
              arith,
              lookup-insert a k from' inv.slots,
              lookup-insert b k to' m,
              lookup-insert b k to inv'.slots,
              lookup-insert a k from (insert b to inv'.slots),
            )),
      )
]
