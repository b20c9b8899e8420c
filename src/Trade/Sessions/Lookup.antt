-- ===== src/Trade/Sessions/Lookup.antt =====
-- What the look-ups of a session come to, in the two cases of the table and with the pointer followed.
use ll2games_rpg.Prelude.{ℕ, ◌≡◌, refl, ap, Option, none, some}
use ll2games_rpg.Prelude.Dict.{lookup, insert}
use ll2games_rpg.Trade.{TradeSession}
use ll2games_rpg.Trade.Sessions.{Sessions, Run, at_index, deref}

pub at_index_found :
    (id : ℕ) (s : Sessions) (p : Option ℕ) → lookup id s.table ≡ some p → at_index id s ≡ (p, s)
unfolding at_index
at_index_found id s p e = rw (e, at_index) refl

pub at_index_missing :
    (id : ℕ) (s : Sessions)
    → lookup id s.table ≡ none
    → at_index id s ≡ (none, record s { table = insert id none s.table })
unfolding at_index
at_index_missing id s e = rw (e, at_index) refl

pub deref_at :
    {A : Type 0} (q : ℕ) (t : TradeSession) (s : Sessions) (k : TradeSession → Run A)
    → lookup q s.heap ≡ some t
    → deref (some q) s k ≡ k t
unfolding deref
deref_at q t s k e = rw (e, deref) refl

-- How an operation goes on, in terms of what the table has for the player.
pub look_found :
    {A : Type 0} (id q : ℕ) (s : Sessions) (missing : Sessions → Run A)
    (found : ℕ → Sessions → Run A)
    → lookup id s.table ≡ some (some q)
    → (let (p, s') = at_index id s in elim p [ none ↦ missing s' | some r ↦ found r s' ])
      ≡ found q s
look_found id q s missing found e =
    ap
      (λ (r : Option ℕ × Sessions).
        let (p, s') = r in elim p [ none ↦ missing s' | some r ↦ found r s' ])
      (at_index_found id s (some q) e)

pub look_missing :
    {A : Type 0} (id : ℕ) (s : Sessions) (missing : Sessions → Run A) (found : ℕ → Sessions → Run A)
    → lookup id s.table ≡ none
    → (let (p, s') = at_index id s in elim p [ none ↦ missing s' | some r ↦ found r s' ])
      ≡ missing (record s { table = insert id none s.table })
look_missing id s missing found e =
    ap
      (λ (r : Option ℕ × Sessions).
        let (p, s') = r in elim p [ none ↦ missing s' | some r ↦ found r s' ])
      (at_index_missing id s e)
