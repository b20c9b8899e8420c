-- ===== src/CharacterList.antt =====
-- SERVER/src/WORLD/app/CharacterService.cpp: the characters of an account, from Redis or from MySQL.
-- As in PlayerService, the answers of the MySQL C API are arguments; so are what HGetAll gives for a
-- hash, none where it fails, and whether HSET and EXPIRE succeed. A call reads the clock of Redis
-- once, in seconds. A name of more than 64 bytes, which the code reads beyond the end of its buffer,
-- is out of the model's range.
pub mod Cached
mod Tests
use ll2games_rpg.Prelude.{
  ℕ, ◌+◌, Bool, true, ◌&&◌, ltb, Option, none, some, List, [], ◌∷◌, ◌++◌, if◌then◌else◌,
}
use ll2games_rpg.Prelude.Int.{ℤ, pos}
use ll2games_rpg.Prelude.Dict.{Dict, lookup, insert}
use ll2games_rpg.Packet.{Bytes}
use ll2games_rpg.Database.Statement.{
  Fetched, row, truncated, fetch_error, Answers, Handles, with_query,
}

-- A row of `character`; a name may be null.
pub record CharRow : Type 0 where
  pub char_id : ℕ
  pub name : Option Bytes
  pub level : ℤ
  pub job : ℤ

-- A hash with a field for the id of each character, and the time from which it is gone, if it has one.
pub record Hash : Type 0 where
  pub fields : Dict Bytes
  pub expires : Option ℕ

-- The hashes at the keys "charlist:" with an account.
abbrev pub Redis : Type 0
Redis = Dict Hash

abbrev pub ttl : ℕ
ttl = 300

-- A key that is missing or has expired is an empty hash.
pub live : ℕ → ℕ → Redis → Hash
live account now redis = elim (lookup account redis) [
  | none ↦ record { fields = []; expires = none }
  | some h ↦ elim h.expires [
    | none ↦ h
    | some t ↦ if ltb now t then h else record { fields = []; expires = none }
  ]
]

-- The list that is in Redis, empty where there is none.
unfoldable pub cached : Bool → (Dict Bytes → Option (List Bytes)) → ℕ → ℕ → Redis → List Bytes
cached connected hgetall account now redis =
    if connected
    then elim (hgetall (live account now redis).fields) [ none ↦ [] | some list ↦ list ]
    else []

module _ (to_string : ℤ → Bytes) where
  -- The four parts with `$`, which is 36, between them.
  pub summary : CharRow → Bytes
  summary r =
      to_string (pos r.char_id)
      ++ 36
        ∷ (elim r.name [ none ↦ [] | some name ↦ name ]
            ++ 36 ∷ (to_string r.level ++ 36 ∷ to_string r.job))

  -- HSet, which sends HSET and then EXPIRE: `hset` answers whether each of them succeeds for the id of a
  -- character. What HSet returns is not looked at.
  unfoldable pub cache : Bool → (ℕ → Bool × Bool) → ℕ → ℕ → CharRow → Redis → Redis
  cache connected hset account now r redis =
      let old = live account now redis in
      let (stored, expiry_set) = hset r.char_id in
      if connected && stored
      then insert account
          (record {
            fields = insert r.char_id (summary r) old.fields;
            expires = if expiry_set then some (now + ttl) else old.expires;
          })
          redis
      else redis

  pub char_rows :
      Bool
      → (ℕ → Bool × Bool)
      → ℕ
      → ℕ
      → List (Fetched CharRow)
      → Redis × List Bytes
      → Redis × List Bytes
  char_rows connected hset account now [] (redis, list) = (redis, list)
  char_rows connected hset account now (row r ∷ rows) (redis, list) =
      char_rows connected hset account now rows
        (cache connected hset account now r redis, list ++ summary r ∷ [])
  char_rows connected hset account now (truncated r ∷ rows) (redis, list) =
      char_rows connected hset account now rows
        (cache connected hset account now r redis, list ++ summary r ∷ [])
  char_rows connected hset account now (fetch_error ∷ rows) (redis, list) = (redis, list)

  pub get_character_list :
      Bool
      → (Dict Bytes → Option (List Bytes))
      → (ℕ → Bool × Bool)
      → ℕ
      → ℕ
      → Answers
      → List (Fetched CharRow)
      → Handles × Redis
      → Handles × Redis × List Bytes
  get_character_list connected hgetall hset account now a rows (h, redis) =
      elim (cached connected hgetall account now redis) [
        | line ∷ list ↦ (h, redis, line ∷ list)
        | [] ↦
            let (h', s, success) =
              with_query a (λ s. (char_rows connected hset account now rows s, true))
                (h, (redis, [])) in
            (h', s.0, s.1)
      ]
