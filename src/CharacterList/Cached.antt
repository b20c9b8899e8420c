-- ===== src/CharacterList/Cached.antt =====
-- The list of an account's characters that is asked for again.
use mathlib.Core.List.Perm
use mathlib.Core.List.{Perm, cons≢nil, append_assoc, append-nil}
use ll2games_rpg.Prelude.{
  ℕ, ◌+◌, ◌<◌, lt→ltb, ◌≡◌, ◌≢◌, refl, sym, ap, subst, ◌∙◌, Bool, true, Option, none, some, List,
  [], ◌∷◌, ◌++◌, map, ◌==◌, Bool-cases, inl, inr, arith,
}
use ll2games_rpg.Prelude.Int.{ℤ}
use ll2games_rpg.Prelude.Dict.{Dict, lookup, insert, Distinct, insert_self}
use ll2games_rpg.Packet.{Bytes}
use ll2games_rpg.Database.Statement.{
  Fetched, row, truncated, fetch_error, Answers, Handles, open_query, with_query, close,
}
use ll2games_rpg.CharacterList.{
  CharRow, Hash, Redis, ttl, live, summary, cache, char_rows, cached, get_character_list,
}

-- The rows before an error of the fetch.
unfoldable pub read_rows : List (Fetched CharRow) → List CharRow
read_rows [] = []
read_rows (row r ∷ rows) = r ∷ read_rows rows
read_rows (truncated r ∷ rows) = r ∷ read_rows rows
read_rows (fetch_error ∷ rows) = []

module _ {V : Type 0} where
  abbrev pub values : Dict V → List V
  values [] = []
  values ((k, v) ∷ d) = v ∷ values d

  found_behind : (k : ℕ) (v : V) (d e : Dict V) → lookup k (d ++ (k, v) ∷ e) ≢ none
  found_behind k v [] e h = ground arith
  found_behind k v ((j, w) ∷ d) e h = ground (arith, found_behind k v d e)

  fresh_before : (k : ℕ) (v : V) (d e : Dict V) → Distinct (d ++ (k, v) ∷ e) → lookup k d ≡ none
  fresh_before k v [] e h = refl
  fresh_before k v ((j, w) ∷ d) e h = elim (Bool-cases (k == j)) [
    | inl same ↦
        let is : k ≡ j = ground arith in
        absurd (found_behind k v d e (subst (λ i. lookup i (d ++ (k, v) ∷ e) ≡ none) (sym is) h.0))
    | inr other ↦ rw other (fresh_before k v d e h.1)
  ]

  insert_last : (k : ℕ) (v : V) (d : Dict V) → lookup k d ≡ none → insert k v d ≡ d ++ (k, v) ∷ []
  insert_last k v [] h = refl
  insert_last k v ((j, w) ∷ d) h = elim (Bool-cases (k == j)) [
    | inl same ↦ ground arith
    | inr other ↦ rw other (ap (λ r. (j, w) ∷ r) (insert_last k v d (ground arith)))
  ]

abbrev pub live_fields : ℕ → ℕ → Redis → Dict Bytes
live_fields account now redis = (live account now redis).fields

-- A hash that has not expired.
live_until :
    (account now t : ℕ) (redis : Redis) (h : Hash)
    → lookup account redis ≡ some h
    → h.expires ≡ some t
    → now < t
    → live_fields account now redis ≡ h.fields
unfolding live
live_until account now t redis h found expiry soon =
    rw (found, live_fields) (rw (expiry, live_fields) (rw (lt→ltb now t soon, live_fields) refl))

abbrev pub entry : (ℤ → Bytes) → CharRow → ℕ × Bytes
entry to_string r = (r.char_id, summary to_string r)

values-entry :
    (to_string : ℤ → Bytes) (rs : List CharRow)
    → values (map (entry to_string) rs) ≡ map (summary to_string) rs
values-entry to_string [] = refl
values-entry to_string (r ∷ rs) = ap (λ l. summary to_string r ∷ l) (values-entry to_string rs)

module _ (to_string : ℤ → Bytes) (hset : ℕ → Bool × Bool)
    (stores : (id : ℕ) → hset id ≡ (true, true)) (account now : ℕ) where
  abbrev stored_hash : CharRow → Redis → Hash
  stored_hash r redis = record {
    fields = insert r.char_id (summary to_string r) (live_fields account now redis);
    expires = some (now + ttl);
  }

  hash-cache :
      (r : CharRow) (redis : Redis)
      → live_fields account now (cache to_string true hset account now r redis)
        ≡ insert r.char_id (summary to_string r) (live_fields account now redis)
  unfolding cache
  hash-cache r redis = rw (stores r.char_id) (
      live_until account now (now + ttl) _ (stored_hash r redis)
        (insert_self account (stored_hash r redis) redis) refl (omega arith))

  -- The hash was written at `now`, with its expiry.
  abbrev Written : Redis → Type 0
  Written redis = (h : Hash) × (lookup account redis ≡ some h) × (h.expires ≡ some (now + ttl))

  cache-Written :
      (r : CharRow) (redis : Redis) → Written (cache to_string true hset account now r redis)
  unfolding cache
  cache-Written r redis =
      rw (stores r.char_id)
        (stored_hash r redis, insert_self account (stored_hash r redis) redis, refl)

  char_rows-Written :
      (rows : List (Fetched CharRow)) (redis : Redis) (list : List Bytes)
      → Written redis
      → Written (char_rows to_string true hset account now rows (redis, list)).0
  unfolding char_rows
  char_rows-Written [] redis list h = h
  char_rows-Written (row r ∷ rows) redis list h = char_rows-Written rows _ _ (cache-Written r redis)
  char_rows-Written (truncated r ∷ rows) redis list h =
      char_rows-Written rows _ _ (cache-Written r redis)
  char_rows-Written (fetch_error ∷ rows) redis list h = h

  some_row-Written :
      (r : CharRow) (rs : List CharRow) (rows : List (Fetched CharRow)) (redis : Redis)
      (list : List Bytes)
      → read_rows rows ≡ r ∷ rs
      → Written (char_rows to_string true hset account now rows (redis, list)).0
  unfolding char_rows read_rows
  some_row-Written r rs [] redis list e = absurd (cons≢nil (sym e))
  some_row-Written r rs (row s ∷ rows) redis list e =
      char_rows-Written rows _ _ (cache-Written s redis)
  some_row-Written r rs (truncated s ∷ rows) redis list e =
      char_rows-Written rows _ _ (cache-Written s redis)
  some_row-Written r rs (fetch_error ∷ rows) redis list e = absurd (cons≢nil (sym e))

  -- Until then it stays what it was.
  still_there :
      (later : ℕ) (redis : Redis)
      → later < now + ttl
      → Written redis
      → live_fields account later redis ≡ live_fields account now redis
  still_there later redis soon (h, found, expiry) =
      live_until account later (now + ttl) redis h found expiry soon
      ∙ sym (live_until account now (now + ttl) redis h found expiry (omega arith))

  -- What the loop adds to the list and to the hash, where no field comes twice.
  abbrev Added : List (Fetched CharRow) → Redis → List Bytes → Type 0
  Added rows redis list =
      (live_fields account now (char_rows to_string true hset account now rows (redis, list)).0
        ≡ live_fields account now redis ++ map (entry to_string) (read_rows rows))
      × ((char_rows to_string true hset account now rows (redis, list)).1
          ≡ list ++ map (summary to_string) (read_rows rows))

  one_more :
      (r : CharRow) (redis : Redis) (e : Dict Bytes)
      → Distinct (live_fields account now redis ++ entry to_string r ∷ e)
      → live_fields account now (cache to_string true hset account now r redis)
        ≡ live_fields account now redis ++ entry to_string r ∷ []
  one_more r redis e d =
      hash-cache r redis
      ∙ insert_last r.char_id (summary to_string r) (live_fields account now redis)
          (fresh_before r.char_id (summary to_string r) (live_fields account now redis) e d)

  one_more-Distinct :
      (r : CharRow) (redis : Redis) (e : Dict Bytes)
      → Distinct (live_fields account now redis ++ entry to_string r ∷ e)
      → Distinct (live_fields account now (cache to_string true hset account now r redis) ++ e)
  one_more-Distinct r redis e d =
      subst Distinct
        (sym (
          ap (λ f. f ++ e) (one_more r redis e d)
          ∙ append_assoc (live_fields account now redis) (entry to_string r ∷ []) e))
        d

  row-Added :
      (r : CharRow) (rows : List (Fetched CharRow)) (redis : Redis) (list : List Bytes)
      → Distinct (
          live_fields account now redis
          ++ entry to_string r ∷ map (entry to_string) (read_rows rows))
      → Added rows
          (cache to_string true hset account now r redis)
          (list ++ summary to_string r ∷ [])
      → (live_fields account now
            (char_rows to_string true hset account now rows
              (cache to_string true hset account now r redis, list ++ summary to_string r ∷ [])).0
          ≡ live_fields account now redis
            ++ entry to_string r ∷ map (entry to_string) (read_rows rows))
        × ((char_rows to_string true hset account now rows
              (cache to_string true hset account now r redis, list ++ summary to_string r ∷ [])).1
            ≡ list ++ summary to_string r ∷ map (summary to_string) (read_rows rows))
  row-Added r rows redis list d ih =
      let e = map (entry to_string) (read_rows rows) in
      (
        ih.0
            ∙ ap (λ f. f ++ e) (one_more r redis e d)
            ∙ append_assoc (live_fields account now redis) (entry to_string r ∷ []) e,
        ih.1
            ∙ append_assoc list (summary to_string r ∷ [])
                (map (summary to_string) (read_rows rows)),
      )

  char_rows-Added :
      (rows : List (Fetched CharRow)) (redis : Redis) (list : List Bytes)
      → Distinct (live_fields account now redis ++ map (entry to_string) (read_rows rows))
      → Added rows redis list
  unfolding read_rows char_rows
  char_rows-Added [] redis list d = (sym (append-nil _), sym (append-nil _))
  char_rows-Added (row r ∷ rows) redis list d = row-Added r rows redis list d (
      char_rows-Added rows (cache to_string true hset account now r redis)
        (list ++ summary to_string r ∷ [])
        (one_more-Distinct r redis (map (entry to_string) (read_rows rows)) d))
  char_rows-Added (truncated r ∷ rows) redis list d = row-Added r rows redis list d (
      char_rows-Added rows (cache to_string true hset account now r redis)
        (list ++ summary to_string r ∷ [])
        (one_more-Distinct r redis (map (entry to_string) (read_rows rows)) d))
  char_rows-Added (fetch_error ∷ rows) redis list d = (sym (append-nil _), sym (append-nil _))

-- What Redis answers for a hash: its values, in some order.
module _ (to_string : ℤ → Bytes) (hset : ℕ → Bool × Bool)
    (stores : (id : ℕ) → hset id ≡ (true, true)) (account : ℕ)
    (hgetall : Dict Bytes → Option (List Bytes))
    (answers : (d : Dict Bytes) → (l : List Bytes) × (hgetall d ≡ some l) × Perm l (values d)) where
  abbrev pub asks :
      ℕ → Answers → List (Fetched CharRow) → Handles × Redis → Handles × Redis × List Bytes
  asks = get_character_list to_string true hgetall hset account

  cached-answers :
      (now : ℕ) (redis : Redis)
      → cached true hgetall account now redis ≡ (answers (live_fields account now redis)).0
  unfolding cached
  cached-answers now redis = rw (answers (live_fields account now redis)).1 refl

  missed :
      (now : ℕ) (a : Answers) (rows : List (Fetched CharRow)) (h h' : Handles) (conn : ℕ)
      (redis : Redis)
      → cached true hgetall account now redis ≡ []
      → open_query a h ≡ (h', some conn)
      → asks now a rows (h, redis) ≡ (
        close conn h',
        (char_rows to_string true hset account now rows (redis, [])).0,
        (char_rows to_string true hset account now rows (redis, [])).1,
      )
  unfolding with_query get_character_list
  missed now a rows h h' conn redis e opened =
      rw (e, get_character_list)
        (rw (opened, with_query)
          (ap
            (λ (o : Handles × Option ℕ). (
              close conn o.0,
              (char_rows to_string true hset account now rows (redis, [])).0,
              (char_rows to_string true hset account now rows (redis, [])).1,
            ))
            opened))

  hit :
      (now : ℕ) (a : Answers) (rows : List (Fetched CharRow)) (h : Handles) (redis : Redis)
      (line : Bytes) (list : List Bytes)
      → cached true hgetall account now redis ≡ line ∷ list
      → asks now a rows (h, redis) ≡ (h, redis, line ∷ list)
  unfolding get_character_list
  hit now a rows h redis line list e = rw (e, get_character_list) refl

  answered :
      (now : ℕ) (a : Answers) (rows : List (Fetched CharRow)) (h : Handles) (redis : Redis)
      (line : Bytes) (list l : List Bytes)
      → cached true hgetall account now redis ≡ l
      → Perm l (line ∷ list)
      → (asks now a rows (h, redis) ≡ (h, redis, l))
  answered now a rows h redis line list [] e p = absurd (cons≢nil (sym (Perm.nil-eq p)))
  answered now a rows h redis line list (x ∷ l) e p = hit now a rows h redis x l e

  -- When Redis has no list of an account, the query opens and gives at least one row before any error of
  -- the fetch, no character twice, HGetAll answers, and every HSET and EXPIRE succeeds: the list has these
  -- rows' characters in their order. Asked for again less than 300 seconds later, whatever the database
  -- would answer then, and nothing having changed Redis in between, it has the same characters in some
  -- order, and leaves the connections and Redis alone.
  pub list_again :
      (a b : Answers) (r : CharRow) (rs : List CharRow) (rows again : List (Fetched CharRow))
      (h h' : Handles) (conn : ℕ) (redis : Redis) (now later : ℕ)
      → later < now + ttl
      → live_fields account now redis ≡ []
      → open_query a h ≡ (h', some conn)
      → read_rows rows ≡ r ∷ rs
      → Distinct (map (entry to_string) (r ∷ rs))
      → (first : Handles × Redis × List Bytes) × (asks now a rows (h, redis) ≡ first)
        × (first.2 ≡ map (summary to_string) (r ∷ rs))
        × (l : List Bytes) × (asks later b again (first.0, first.1) ≡ (first.0, first.1, l))
        × Perm l first.2
  list_again a b r rs rows again h h' conn redis now later soon none_yet opened read distinct =
      let found = answers (live_fields account now redis) in
      let miss : cached true hgetall account now redis ≡ [] =
        cached-answers now redis
        ∙ Perm.eq-nil (subst (λ d. Perm found.0 (values d)) none_yet found.2) in
      let added = char_rows-Added to_string hset stores account now rows redis [] (
        subst (λ d. Distinct (d ++ map (entry to_string) (read_rows rows))) (sym none_yet)
          (subst (λ l. Distinct (map (entry to_string) l)) (sym read) distinct)) in
      let redis' = (char_rows to_string true hset account now rows (redis, [])).0 in
      let stored : live_fields account now redis' ≡ map (entry to_string) (r ∷ rs) =
        added.0
        ∙ ap (λ d. d ++ map (entry to_string) (read_rows rows)) none_yet
        ∙ ap (map (entry to_string)) read in
      let there : live_fields account later redis' ≡ live_fields account now redis' =
        still_there to_string hset stores account now later redis' soon
          (some_row-Written to_string hset stores account now r rs rows redis [] read) in
      let listed : (char_rows to_string true hset account now rows (redis, [])).1
          ≡ map (summary to_string) (r ∷ rs) =
        added.1 ∙ ap (map (summary to_string)) read in
      let same : Perm (answers (live_fields account now redis')).0
          (map (summary to_string) (r ∷ rs)) =
        subst (λ l. Perm (answers (live_fields account now redis')).0 l)
          (ap values stored ∙ values-entry to_string (r ∷ rs))
          (answers (live_fields account now redis')).2 in
      (
        (close conn h', redis', (char_rows to_string true hset account now rows (redis, [])).1),
        missed now a rows h h' conn redis miss opened,
        listed,
        (answers (live_fields account now redis')).0,
        answered later b again (close conn h') redis' _ _ _
            (cached-answers later redis' ∙ ap (λ d. (answers d).0) there) same,
        subst (λ l. Perm (answers (live_fields account now redis')).0 l) (sym listed) same,
      )
