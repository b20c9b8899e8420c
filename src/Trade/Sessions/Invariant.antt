-- ===== src/Trade/Sessions/Invariant.antt =====
-- No session pointer of the table dangles.
use ll2games_rpg.Prelude.{
  ℕ, ◌<◌, ◌≡◌, ◌≢◌, ◌==◌, ◌⊎◌, inl, inr, none, some, arith, Bool-cases, Option-cases,
}
use ll2games_rpg.Prelude.Dict.{lookup, insert, erase, lookup-insert, lookup-erase}
use ll2games_rpg.Trade.{Player, TradeSession}
use ll2games_rpg.Trade.Sessions.{Sessions, create_trade_session, new_session, at_index, store}

-- The session that a table entry points to is on the heap and is a session of that player, and no
-- session is at an address that is still to be handed out.
pub record IsValid (s : Sessions) : Type 0 where
  pub points :
      (k p : ℕ)
      → lookup k s.table ≡ some (some p)
      → (t : TradeSession) × (lookup p s.heap ≡ some t) × ((t.a_id ≡ k) ⊎ (t.b_id ≡ k))
  pub below : (p : ℕ) (t : TradeSession) → lookup p s.heap ≡ some t → p < s.next

pub create-IsValid :
    (a b : Player) (s : Sessions) → IsValid s → IsValid (create_trade_session a b s)
unfolding create_trade_session new_session
create-IsValid a b s v = record {
  points = λ k p e. elim (Bool-cases (k == b.id)) [
    | inl is_b ↦ (
      new_session a b,
      ground (arith, lookup-insert b.id k (some s.next) (insert a.id (some s.next) s.table)),
      ground arith,
    )
    | inr not_b ↦ elim (Bool-cases (k == a.id)) [
      | inl is_a ↦ (
        new_session a b,
        ground (
          arith,
          lookup-insert b.id k (some s.next) (insert a.id (some s.next) s.table),
          lookup-insert a.id k (some s.next) s.table,
        ),
        ground arith,
      )
      | inr not_a ↦
          let old : lookup k s.table ≡ some (some p) = ground (
            arith,
            lookup-insert b.id k (some s.next) (insert a.id (some s.next) s.table),
            lookup-insert a.id k (some s.next) s.table,
          ) in
          let (t, found, owner) = v.points k p old in (t, ground (arith, v.below p t), owner)
    ]
  ];
  below = λ p t e. ground (arith, v.below p t);
}

pub at_index-IsValid : (id : ℕ) (s : Sessions) → IsValid s → IsValid (at_index id s).1
unfolding at_index
at_index-IsValid id s v = elim (Option-cases (lookup id s.table)) [
  | inl e ↦
      rw (e, at_index)
        (record {
          points = λ k p e'. v.points k p (ground (arith, lookup-insert id k none s.table));
          below = v.below;
        })
  | inr (p, e) ↦ rw (e, at_index) v
]

pub store-IsValid :
    (p : ℕ) (t t' : TradeSession) (s : Sessions)
    → lookup p s.heap ≡ some t
    → t'.a_id ≡ t.a_id
    → t'.b_id ≡ t.b_id
    → IsValid s
    → IsValid (store (some p) t' s)
unfolding store
store-IsValid p t t' s e ea eb v = record {
  points = λ k q at.
      let (u, found, owner) = v.points k q at in
      elim (Bool-cases (q == p)) [
        | inl same ↦ (t', ground (arith, lookup-insert p q t' s.heap), ground arith)
        | inr other ↦ (u, ground (arith, lookup-insert p q t' s.heap), owner)
      ];
  below = λ q u found. ground (arith, lookup-insert p q t' s.heap, v.below q u, v.below p t);
}

pub delete-IsValid :
    (p : ℕ) (t : TradeSession) (s : Sessions)
    → lookup p s.heap ≡ some t
    → IsValid s
    → IsValid (record s { table = erase t.b_id (erase t.a_id s.table); heap = erase p s.heap })
delete-IsValid p t s e v = record {
  points = λ k q at.
      let old : (lookup k s.table ≡ some (some q)) × (k ≢ t.a_id) × (k ≢ t.b_id) =
        ground
          (arith, lookup-erase t.b_id k (erase t.a_id s.table), lookup-erase t.a_id k s.table) in
      let (u, found, owner) = v.points k q old.0 in
      (u, ground (arith, lookup-erase p q s.heap), owner);
  below = λ q u found. v.below q u (ground (arith, lookup-erase p q s.heap));
}
