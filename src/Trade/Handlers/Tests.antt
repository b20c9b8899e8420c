-- ===== src/Trade/Handlers/Tests.antt =====
-- A trade between the players 1 and 2, and a third player in the game.
use ll2games_rpg.Prelude.{
  ℕ, ◌-◌, ◌≡◌, refl, true, false, Option, none, some, [], ◌∷◌, leb, ◌&&◌, ◌==◌, subst, if_both,
  if◌then◌else◌, arith,
}
use ll2games_rpg.Prelude.Int.{ℤ, pos, ◌-ℤ◌}
use ll2games_rpg.Prelude.Dict.{Dict}
use ll2games_rpg.Packet.{Bytes, parse_length_prefixed_string, value_start}
use ll2games_rpg.Trade.{Player, TradeItem, TradeSession}
use ll2games_rpg.Trade.Execute.Numbers.{AreNumbers}
use ll2games_rpg.Trade.Memory.{memory}
use ll2games_rpg.Trade.Handlers.{
  Context, no_context, on_session, handle_trade_accept, handle_trade_ready, World, find_address,
  get_player, next_field, handle_trade_cancel, ItemFields, item_fields, trade_item,
}
use ll2games_rpg.Trade.Sessions.Invariant.{IsValid}
use ll2games_rpg.Trade.Handlers.Valid.{EndsValid, UploadedNumbers, handlers-EndsValid}

abbrev player : ℕ → Player
player id = record { address = id; id = id; alive = true; map = some 1 }

abbrev session : TradeSession
session = record {
  a_player = 1;
  b_player = 2;
  a_id = 1;
  b_id = 2;
  a_ready = false;
  b_ready = false;
  a_items = [];
  b_items = [];
}

abbrev world : Dict Player → World memory
world players = record {
  service = record {
    sessions = record {
      table = (1, some 10) ∷ (2, some 10) ∷ [];
      heap = (10, session) ∷ [];
      next = 11;
    };
    pool = [];
    db = record { now = []; before = [] };
  };
  players = players;
  online = λ id. true;
}

-- A text of one digit.
abbrev stoi : Bytes → Option ℤ
stoi [] = none
stoi (b ∷ bytes) = if leb 48 b && leb b 57 then some (pos (b - 48)) else none

abbrev atoi : Bytes → ℤ
atoi text = elim (stoi text) [ none ↦ pos 0 | some n ↦ n ]

abbrev id_of : Bytes → ℕ
id_of text = 2000

abbrev digits : ℕ → Bytes
digits amount = 1 ∷ 0 ∷ 50 ∷ 1 ∷ 0 ∷ amount ∷ 1 ∷ 0 ∷ 48 ∷ 1 ∷ 0 ∷ 51 ∷ []

abbrev fields : ℕ → ItemFields
fields amount = record {
  item_id = 50 ∷ [];
  item_amount = amount ∷ [];
  item_trade_slot_index = 48 ∷ [];
  item_inven_slot_index = 51 ∷ [];
}

read_five : item_fields (some (digits 53)) ≡ some (fields 53)
unfolding item_fields next_field parse_length_prefixed_string value_start
read_five = refl

read_letter : item_fields (some (digits 97)) ≡ some (fields 97)
unfolding item_fields next_field parse_length_prefixed_string value_start
read_letter = refl

abbrev five : TradeItem
five = record { id = 2000; is_number = true; item_type = pos 1; amount = pos 5; slot_index = pos 3 }

partner_gone : find_address 2 ((1, player 1) ∷ []) ≡ none
unfolding find_address
partner_gone = refl

item_read : trade_item stoi id_of (fields 53) ≡ some five
unfolding trade_item ◌-ℤ◌
item_read = refl

abbrev three : Dict Player
three = (1, player 1) ∷ (2, player 2) ∷ (3, player 3) ∷ []

named_third : next_field (some (1 ∷ 0 ∷ 51 ∷ [])) 0 ≡ some (51 ∷ [], 3)
unfolding next_field parse_length_prefixed_string value_start
named_third = refl

third_found : get_player (atoi (51 ∷ [])) three ≡ some (player 3)
unfolding get_player
third_found = refl

world-IsValid : IsValid (world three).service.sessions
world-IsValid = record {
  points = λ k p e. (session, ground arith, ground arith);
  below = λ p t e. ground arith;
}

world-UploadedNumbers : UploadedNumbers (world three).service.sessions
world-UploadedNumbers q t e = subst read e (if_both read (q == 10) (tt, tt) tt)
  where
    read : Option TradeSession → Type 0
    read none = Unit
    read (some u) = AreNumbers u.a_items × AreNumbers u.b_items

abbrev names_third : Context
names_third = record {
  caller = no_context;
  has_player_manager = true;
  has_player_service = true;
  has_trade_service = true;
  payload = some (1 ∷ 0 ∷ 51 ∷ []);
}

handlers-EndsValid_example :
    EndsValid (
      handle_trade_accept memory atoi
        (record names_third { caller = on_session (some (player 1)) })
        (world three))
    × EndsValid (
        handle_trade_ready memory atoi
          (record names_third { caller = on_session (some (player 1)) })
          (world three))
    × EndsValid (
        handle_trade_cancel memory atoi
          (record names_third { caller = on_session (some (player 1)) })
          (world three))
handlers-EndsValid_example =
    handlers-EndsValid atoi (some (player 1)) names_third (world three) world-IsValid
      world-UploadedNumbers (λ id p e. refl) (λ p e. refl)
