-- ===== src/Trade/Handlers/Partner.antt =====
-- Whom the handlers reach: the partner in the trade session, or the player that the packet names.
use ll2games_rpg.Prelude.{ℕ, ◌≡◌, refl, ◌∙◌, true, Option, none, some, [], ◌∷◌, ◌⊎◌, take, arith}
use ll2games_rpg.Prelude.Int.{ℤ}
use ll2games_rpg.Prelude.Dict.{erase}
use ll2games_rpg.Packet.{Bytes}
use ll2games_rpg.Database.{Mysql}
use ll2games_rpg.Trade.{TradeItem, Player, TradeSession}
use ll2games_rpg.Trade.Sessions.Found.{Trades, partner_of, target_found, uploads, cancels}
use ll2games_rpg.Trade.Handlers.{
  trade_cancel, ok_reply, told, broken, thrown, handled, Context, on_session, World, find_address,
  get_player, next_field, guarded, named, told_to, with_sessions, handle_trade_cancel, ItemFields,
  item_fields, trade_item, announce, upload_fields, handle_trade_add_item,
}

-- A packet of a logged-in player, with all services in place.
abbrev pub from : Player → Option Bytes → Context
from p payload = record {
  caller = on_session (some p);
  has_player_manager = true;
  has_player_service = true;
  has_trade_service = true;
  payload = payload;
}

module _ (m : Mysql) (stoi : Bytes → Option ℤ) (id_of : Bytes → ℕ) where
  -- An upload of a player in a trade comes to `upload_fields`, once its four fields are there.
  reaches_upload :
      (p : Player) (q : ℕ) (t : TradeSession) (w : World m) (payload : Option Bytes)
      (f : ItemFields)
      → Trades p q t w.service.sessions
      → item_fields payload ≡ some f
      → handle_trade_add_item m stoi id_of (from p payload) w
        ≡ upload_fields m stoi id_of p (partner_of p t) f w
  unfolding handle_trade_add_item guarded
  reaches_upload p q t w payload f h parsed =
      rw (target_found p q t w.service.sessions h) (rw parsed refl)

  -- When the partner in the trade has left the game, an upload of an item, its fields and numbers all in
  -- order, reads through the partner's pointer, which dangles: the trade session still has it.
  pub upload_after_partner_left :
      (p : Player) (q : ℕ) (t : TradeSession) (w : World m) (payload : Option Bytes)
      (f : ItemFields) (item : TradeItem)
      → Trades p q t w.service.sessions
      → find_address (partner_of p t) w.players ≡ none
      → item_fields payload ≡ some f
      → trade_item stoi id_of f ≡ some item
      → handle_trade_add_item m stoi id_of (from p payload) w ≡ broken
  unfolding upload_fields announce with_sessions
  upload_after_partner_left p q t w payload f item h gone parsed numbers =
      reaches_upload p q t w payload f h parsed
      ∙ rw (numbers, upload_fields)
          (rw (uploads p q t item w.service.sessions h) (rw (gone, announce) refl))

  no_item :
      (f : ItemFields)
      → (stoi (take 1 f.item_id) ≡ none)
        ⊎ (stoi f.item_amount ≡ none)
        ⊎ (stoi f.item_inven_slot_index ≡ none)
      → trade_item stoi id_of f ≡ none
  unfolding trade_item
  no_item f bad = ground arith

  -- An upload of a player in a trade ends with an exception when the first letter of its item, its amount
  -- or its slot in the inventory is not a number for `std::stoi`, whatever else it says.
  pub upload_not_a_number_throws :
      (p : Player) (q : ℕ) (t : TradeSession) (w : World m) (payload : Option Bytes)
      (f : ItemFields)
      → Trades p q t w.service.sessions
      → item_fields payload ≡ some f
      → (stoi (take 1 f.item_id) ≡ none)
        ⊎ (stoi f.item_amount ≡ none)
        ⊎ (stoi f.item_inven_slot_index ≡ none)
      → handle_trade_add_item m stoi id_of (from p payload) w ≡ thrown
  unfolding upload_fields
  upload_not_a_number_throws p q t w payload f h parsed bad =
      reaches_upload p q t w payload f h parsed ∙ rw (no_item f bad, upload_fields) refl

-- A cancellation of a player in a trade ends the trade for both sides, and tells the player that its
-- packet names, whoever that is: the partner is not told unless it is the one that is named. The condition
-- is that the named player points to a session that exists.
pub cancel_tells_named :
    (m : Mysql) (atoi : Bytes → ℤ) (p : Player) (q : ℕ) (t : TradeSession) (w : World m)
    (payload : Option Bytes) (text : Bytes) (offset : ℕ) (target : Player)
    → Trades p q t w.service.sessions
    → next_field payload 0 ≡ some (text, offset)
    → get_player (atoi text) w.players ≡ some target
    → w.online target.id ≡ true
    → handle_trade_cancel m atoi (from p payload) w
      ≡ handled (
        with_sessions m w (record w.service.sessions {
          table = erase t.b_id (erase t.a_id w.service.sessions.table);
          heap = erase q w.service.sessions.heap;
        }),
        told target.id trade_cancel ∷ ok_reply trade_cancel ∷ [],
      )
unfolding handle_trade_cancel guarded named told_to
cancel_tells_named m atoi p q t w payload text offset target h parsed found there =
    rw (parsed, named)
      (rw (found, named) (rw (cancels p q t w.service.sessions h) (rw (there, told_to) refl)))
