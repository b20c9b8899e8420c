-- ===== src/Trade.antt =====
-- SERVER/src/CHANNEL/service/TradeService.{h,cpp}. This file has what the parts share; the trade
-- sessions are in Trade/Sessions, and the exchange of the items in the database in Trade/Execute.
pub mod Sessions
pub mod Execute
pub mod Memory
pub mod Handlers
use ll2games_rpg.Prelude.{ℕ, Bool, Option, List}
use ll2games_rpg.Prelude.Int.{ℤ}

-- The `int` results: 0, -1, and 2 for "wait for the other side"; `threw` is an exception of `std::stoi`.
pub data Code : Type 0 where
  done failed waiting threw : Code

-- An id is a text: `is_number` says whether `std::stoi` reads a number in it or throws, and `id` is
-- that number. A type is written by `std::to_string`, so it is always a number. An amount is the `int`
-- that the handler reads; TradeItem keeps it as a `size_t`, and each routine that uses it takes it as
-- an `int` again, which gives back the number, a negative one too.
pub record TradeItem : Type 0 where
  pub id : ℕ
  pub is_number : Bool
  pub item_type : ℤ
  pub amount : ℤ
  pub slot_index : ℤ

-- What the service reads of a Player. `address` is the object's pointer, and `map` the id of its
-- current map, if it has one.
pub record Player : Type 0 where
  pub address : ℕ
  pub id : ℕ
  pub alive : Bool
  pub map : Option ℕ

-- The two `Player*` are their addresses.
pub record TradeSession : Type 0 where
  pub a_player : ℕ
  pub b_player : ℕ
  pub a_id : ℕ
  pub b_id : ℕ
  pub a_ready : Bool
  pub b_ready : Bool
  pub a_items : List TradeItem
  pub b_items : List TradeItem
