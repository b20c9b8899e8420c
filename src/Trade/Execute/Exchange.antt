-- ===== src/Trade/Execute/Exchange.antt =====
-- What a trade that succeeds does to the table: every item changes hands, and nothing else does.
use ll2games_rpg.Prelude.{
  ℕ, ◌≡◌, ◌≢◌, ◌==◌, refl, true, ◌⊎◌, inl, inr, ◌&&◌, List, [], ◌∷◌, All, arith, ap, if◌then◌else◌,
}
use ll2games_rpg.Prelude.Int.{ℤ, pos, ◌+ℤ◌, ◌≤ℤ◌, int_laws, eq_parts, eq_of_parts}
use ll2games_rpg.Database.{Mysql, IsMysql}
use ll2games_rpg.Database.Rows.{count_minus, effect}
use ll2games_rpg.Database.Rows.Laws.{amount_of, times, count_at_hit, count_at_miss}
use ll2games_rpg.Database.Rows.Statements.{
  IsInventory, minus_amount, plus_amount, minus_once, plus_once, minus_other, plus_other,
  minus-IsInventory, plus-IsInventory, delete_empty_amount, delete-IsInventory, insert_amount,
  insert-IsInventory,
}
use ll2games_rpg.Trade.{done, TradeItem, TradeSession}
use ll2games_rpg.Trade.Execute.{decrease_item, increase_item, move_items, transact}
use ll2games_rpg.Trade.Execute.Amounts.{decrease_done}
use ll2games_rpg.Trade.Execute.Increase.{increase_done}

-- How much of item `i` of character `c` one upload of `owner` is about.
pub share : ℕ → ℕ → ℕ → TradeItem → ℤ
share owner c i item = if c == owner && i == item.id then item.amount else pos 0

pub shares : ℕ → ℕ → ℕ → List TradeItem → ℤ
shares owner c i [] = pos 0
shares owner c i (item ∷ items) = share owner c i item +ℤ shares owner c i items

pub share_self : (owner : ℕ) (item : TradeItem) → share owner owner item.id item ≡ item.amount
unfolding share
share_self owner item = ground arith

pub share_other :
    (owner c i : ℕ) (item : TradeItem) → (c ≢ owner) ⊎ (i ≢ item.id) → share owner c i item ≡ pos 0
unfolding share
share_other owner c i item h = ground arith

pub key-cases : (c i c' i' : ℕ) → ((c' ≡ c) × (i' ≡ i)) ⊎ ((c' ≢ c) ⊎ (i' ≢ i))
key-cases c i c' i' = ground arith

times-one : (n : ℕ) (a : ℤ) → n ≡ 1 → times n a ≡ a
unfolding times
times-one n a e = rw e (eq_of_parts _ _ (omega int_laws))

module _ (m : Mysql) (laws : IsMysql m) where
  pub decrease-shares :
      (owner : ℕ) (item : TradeItem) (d : m.Db)
      → (decrease_item m owner item d).1 ≡ done
      → IsInventory (m.rows d)
      → IsInventory (m.rows (decrease_item m owner item d).0)
        × ((c i : ℕ)
            → amount_of c i (m.rows (decrease_item m owner item d).0) +ℤ share owner c i item
              ≡ amount_of c i (m.rows d))
  decrease-shares owner item d ok v =
      let (hit, e) = decrease_done m laws owner item d ok in
      let rs = m.rows d in
      let q = count_minus item.amount owner item.id in
      let v' = minus-IsInventory item.amount owner item.id rs v in
      let once = minus_once item.amount owner item.id rs v.keyed hit in
      rw e (
        delete-IsInventory owner item.id (effect q rs) v',
        λ c i.
            let kept = delete_empty_amount owner item.id c i (effect q rs) v'.nonneg in
            elim (key-cases owner item.id c i) [
              | inl (ec, ei) ↦
                  rw (kept, ec, ei, share_self owner item)
                    (eq_of_parts _ _ (
                      omega (
                        int_laws,
                        eq_parts (minus_amount item.amount owner item.id rs),
                        eq_parts (times-one _ item.amount once),
                      )))
              | inr other ↦
                  rw
                    (
                      kept,
                      share_other owner c i item other,
                      minus_other item.amount owner item.id c i other rs,
                    )
                    (eq_of_parts _ _ (omega int_laws))
            ],
      )

  pub increase-shares :
      (owner : ℕ) (item : TradeItem) (d : m.Db)
      → (increase_item m owner item d).1 ≡ done
      → IsInventory (m.rows d)
      → (pos 0 ≤ℤ item.amount → IsInventory (m.rows (increase_item m owner item d).0))
        × ((c i : ℕ)
            → amount_of c i (m.rows (increase_item m owner item d).0)
              ≡ amount_of c i (m.rows d) +ℤ share owner c i item)
  increase-shares owner item d ok v =
      let (_, how) = increase_done m laws owner item d ok in
      elim how [
        | inl (hit, e) ↦
            let rs = m.rows d in
            let once = plus_once item.amount owner item.id rs v.keyed hit in
            rw e (
              λ n. plus-IsInventory item.amount owner item.id rs n v,
              λ c i. elim (key-cases owner item.id c i) [
                | inl (ec, ei) ↦
                    rw (ec, ei, share_self owner item)
                      (eq_of_parts _ _ (
                        omega (
                          int_laws,
                          eq_parts (plus_amount item.amount owner item.id rs),
                          eq_parts (times-one _ item.amount once),
                        )))
                | inr other ↦
                    rw
                      (
                        share_other owner c i item other,
                        plus_other item.amount owner item.id c i other rs,
                      )
                      (eq_of_parts _ _ (omega int_laws))
              ],
            )
        | inr (r, fresh, rc, ri, rn, e) ↦
            let rs = m.rows d in
            rw e (
              λ n. insert-IsInventory r rs (rw (rc, ri) fresh) (rw rn n) v,
              λ c i. rw (insert_amount c i r rs) (elim (key-cases owner item.id c i) [
                | inl (ec, ei) ↦
                    rw
                      (
                        ec,
                        ei,
                        share_self owner item,
                        count_at_hit owner item.id r (ground arith),
                        rn,
                      )
                      (eq_of_parts _ _ (omega int_laws))
                | inr other ↦
                    rw (share_other owner c i item other, count_at_miss c i r (ground arith))
                      (eq_of_parts _ _ (omega int_laws))
              ]),
            )
      ]

  -- One loop of `Execute` that comes to its end.
  move_items-shares :
      (giver taker : ℕ) (items : List TradeItem) (d : m.Db)
      → (move_items m giver taker items d).1 ≡ done
      → All (λ item. pos 0 ≤ℤ item.amount) items
      → IsInventory (m.rows d)
      → IsInventory (m.rows (move_items m giver taker items d).0)
        × ((c i : ℕ)
            → amount_of c i (m.rows (move_items m giver taker items d).0) +ℤ shares giver c i items
              ≡ amount_of c i (m.rows d) +ℤ shares taker c i items)
  unfolding move_items shares
  move_items-shares giver taker [] d ok n v = (v, λ c i. refl)
  move_items-shares giver taker (item ∷ items) d ok n v =
      let d1 = (decrease_item m giver item d).0 in
      let d2 = (increase_item m taker item d1).0 in
      let taken : (decrease_item m giver item d).1 ≡ done = ground arith in
      let given : (increase_item m taker item d1).1 ≡ done = ground arith in
      let rest : (move_items m giver taker items d2).1 ≡ done = ground arith in
      let (v1, e1) = decrease-shares giver item d taken v in
      let (v2, e2) = increase-shares taker item d1 given v1 in
      let (v3, e3) = move_items-shares giver taker items d2 rest n.1 (v2 n.0) in
      rw (taken, move_items)
        (rw (given, move_items)
          (
            v3,
            λ c i.
                eq_of_parts _ _
                  (omega (int_laws, eq_parts (e1 c i), eq_parts (e2 c i), eq_parts (e3 c i))),
          ))

-- A trade that succeeds, its COMMIT accepted by the server, with uploads of no negative amount, over a
-- table in which each character has one row at most for an item and no count is negative: every
-- character's amount of every item changes by what was uploaded to it and by it, so the two sides swap
-- their uploads and nobody else gains or loses. The table stays of that form.
pub transact_exchanges :
    (m : Mysql) (laws : IsMysql m) (s : TradeSession) (d : m.Db)
    → ((d' : m.Db) → m.commit_accepted d' ≡ true)
    → (transact m s d).1 ≡ done
    → All (λ item. pos 0 ≤ℤ item.amount) s.a_items
    → All (λ item. pos 0 ≤ℤ item.amount) s.b_items
    → IsInventory (m.rows d)
    → IsInventory (m.rows (transact m s d).0)
      × ((c i : ℕ)
          → amount_of c i (m.rows (transact m s d).0)
              +ℤ shares s.a_id c i s.a_items
              +ℤ shares s.b_id c i s.b_items
            ≡ amount_of c i (m.rows d)
              +ℤ shares s.b_id c i s.a_items
              +ℤ shares s.a_id c i s.b_items)
unfolding transact
transact_exchanges m laws s d accepted ok na nb v =
    let d0 = m.start_transaction d in
    let d1 = (move_items m s.a_id s.b_id s.a_items d0).0 in
    let d2 = (move_items m s.b_id s.a_id s.b_items d1).0 in
    let first : (move_items m s.a_id s.b_id s.a_items d0).1 ≡ done = ground arith in
    let second : (move_items m s.b_id s.a_id s.b_items d1).1 ≡ done = ground arith in
    let v0 : IsInventory (m.rows d0) = rw (laws.start_rows d) v in
    let (v1, e1) = move_items-shares m laws s.a_id s.b_id s.a_items d0 first na v0 in
    let (v2, e2) = move_items-shares m laws s.b_id s.a_id s.b_items d1 second nb v1 in
    rw (first, transact)
      (rw (second, transact)
        (rw (laws.commit_rows d2 (accepted d2)) (
          v2,
          λ c i. eq_of_parts _ _ (
              omega (
                int_laws,
                eq_parts (e1 c i),
                eq_parts (e2 c i),
                eq_parts (ap (amount_of c i) (laws.start_rows d)),
              )),
        )))
