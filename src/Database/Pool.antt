-- ===== src/Database/Pool.antt =====
-- SERVER/src/COMMON/db/MySqlConnectionPool.cpp: the queue of idle connections.
use ll2games_rpg.Prelude.{ℕ, Option, none, some, List, [], ◌∷◌, ◌++◌}

-- The front of the queue is the head. A connection is named by a number.
abbrev pub Pool : Type 0
Pool = List ℕ

-- `none` is the null pointer.
unfoldable pub get_connection : Pool → Option ℕ × Pool
get_connection [] = (none, [])
get_connection (conn ∷ pool) = (some conn, pool)

unfoldable pub release_connection : Option ℕ → Pool → Pool
release_connection none pool = pool
release_connection (some conn) pool = pool ++ conn ∷ []
