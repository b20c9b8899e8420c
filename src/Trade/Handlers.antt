-- ===== src/Trade/Handlers.antt =====
-- SERVER/src/CHANNEL/packet/HandleTrade.cpp: the handlers of the trade packets. The C library's `atoi`
-- and `std::stoi`, and the look-up of a player by a name, are parameters. The texts of the replies are
-- left out.
pub mod Partner
pub mod Valid
mod Tests
use ll2games_rpg.Prelude.{
  ℕ, Bool, true, false, not, ◌||◌, Option, none, some, List, [], ◌∷◌, ◌++◌, map, ◌==◌, ◌>>=◌,
  if◌then◌else◌, take,
}
use ll2games_rpg.Prelude.Int.{ℤ, pos, negsuc, ◌-ℤ◌}
use ll2games_rpg.Prelude.Dict.{Dict, lookup}
use ll2games_rpg.Packet.{Bytes, Field, value, parse_length_prefixed_string}
use ll2games_rpg.Database.{Mysql}
use ll2games_rpg.Trade.{Code, done, failed, waiting, threw, TradeItem, Player}
use ll2games_rpg.Trade.Sessions.{
  Packet, recipient, Sessions, Run, fault, ran, Reply, Service, request, start, upload_item, ready,
  cancel, delete_trade_session, get_trade_session, get_target_player, get_my_items,
  get_target_items,
}

pub data Kind : Type 0 where
  trade_request trade_accept trade_ready trade_confirm trade_cancel trade_add_item : Kind

-- What a handler sends: to its own session, to the session of the player with an id, or by the service;
-- and the players whose inventory it loads again.
pub data Effect : Type 0 where
  ok_reply nok_reply sent_back : Kind → Effect
  told : ℕ → Kind → Effect
  by_service : Packet → Effect
  reloads : ℕ → Effect

-- `broken` is a read through a null or a dangling pointer; `thrown` is an exception, which nothing
-- between the handler and `main` catches.
pub data Outcome (A : Type 0) : Type 0 where
  broken thrown : Outcome A
  handled : A → Outcome A

-- Where the packet comes from: no PacketContext, no session in it, or a session with its player, if any.
pub data Caller : Type 0 where
  no_context no_session : Caller
  on_session : Option Player → Caller

pub record Context : Type 0 where
  pub caller : Caller
  pub has_player_manager : Bool
  pub has_player_service : Bool
  pub has_trade_service : Bool
  pub payload : Option Bytes

-- `players` is the table of PlayerManager, with the players that exist. `online` says of a player's id
-- whether the session that the player points to exists: a player that a second login of its character
-- has orphaned stays in the table when its session is deleted.
pub record World (m : Mysql) : Type 0 where
  pub service : Service m
  pub players : Dict Player
  pub online : ℕ → Bool

unfoldable pub find_address : ℕ → Dict Player → Option Player
find_address address [] = none
find_address address ((id, p) ∷ players) =
    if p.address == address then some p else find_address address players

-- PlayerManager::GetPlayer on an `int`.
unfoldable pub get_player : ℤ → Dict Player → Option Player
get_player (pos id) players = lookup id players
get_player (negsuc n) players = none

unfoldable pub next_field : Option Bytes → ℕ → Option (Bytes × ℕ)
next_field payload offset =
    let (field, offset') = parse_length_prefixed_string payload offset in
    elim field [ value v ↦ some (v, offset') | _ ↦ none ]

module _ (m : Mysql) where
  abbrev pub Handled : Type 0
  Handled = Outcome (World m × List Effect)

  -- The checks that each handler starts with. After a failed one, `SendNok` needs the session.
  unfoldable pub guarded : Bool → Context → Kind → World m → (Player → Handled) → Handled
  guarded uses_player_service c kind w k = elim c.caller [
    | no_context ↦ broken
    | no_session ↦ broken
    | on_session found ↦ elim found [
      | none ↦ handled (w, nok_reply kind ∷ [])
      | some p ↦
          if not c.has_player_manager
          then handled (w, nok_reply kind ∷ [])
          else if not (not uses_player_service || c.has_player_service)
          then handled (w, nok_reply kind ∷ [])
          else if not c.has_trade_service
          then handled (w, nok_reply kind ∷ [])
          else k p
    ]
  ]

  -- A field of the payload that names a player.
  unfoldable pub named :
      Context → Kind → World m → (Bytes → Option Player) → (Player → Handled) → Handled
  named c kind w find k = elim (next_field c.payload 0) [
    | none ↦ handled (w, nok_reply kind ∷ [])
    | some (text, offset) ↦ elim (find text) [
      | none ↦ handled (w, nok_reply kind ∷ [])
      | some target ↦ k target
    ]
  ]

  -- The `GetSession()->Send` to the player with an id, and what follows it.
  unfoldable pub told_to : World m → ℕ → Handled → Handled
  told_to w id k = if w.online id then k else broken

  -- The packets that the service sends, in order.
  unfoldable pub sends_all : World m → List Packet → Handled → Handled
  sends_all w [] k = k
  sends_all w (packet ∷ packets) k = told_to w (recipient packet) (sends_all w packets k)

  unfoldable pub with_sessions : World m → Sessions → World m
  with_sessions w s = record w { service = record w.service { sessions = s } }

  pub handle_trade_request : (Bytes → Dict Player → Option Player) → Context → World m → Handled
  handle_trade_request find_name c w = guarded false c trade_request w λ p.
      named c trade_request w (λ text. find_name text w.players)
        λ target.
          let reply = request (some p) (some target) in
          elim reply.code [
            | done ↦
                sends_all w reply.sent
                  (handled (w, map by_service reply.sent ++ ok_reply trade_request ∷ []))
            | _ ↦ handled (w, nok_reply trade_request ∷ [])
          ]

  module _ (atoi : Bytes → ℤ) where
    pub handle_trade_accept : Context → World m → Handled
    handle_trade_accept c w = guarded false c trade_accept w λ p.
        named c trade_accept w (λ text. get_player (atoi text) w.players)
          λ requester.
            let (s, reply) = start (some requester) (some p) w.service.sessions in
            elim reply.code [
              | done ↦
                  sends_all w reply.sent (handled (with_sessions w s, map by_service reply.sent))
              | _ ↦ handled (with_sessions w s, nok_reply trade_accept ∷ [])
            ]

    -- After a trade that succeeded.
    unfoldable pub confirm : Player → Player → World m → Handled
    confirm p target w = elim (get_my_items (some p) w.service.sessions) [
      | fault ↦ broken
      | ran mine ↦ elim (get_target_items (some p) w.service.sessions) [
        | fault ↦ broken
        | ran theirs ↦
            elim (delete_trade_session (get_trade_session (some p) w.service.sessions)
              w.service.sessions) [
                | fault ↦ broken
                | ran s ↦ told_to w target.id (
                    handled (
                      with_sessions w s,
                      reloads p.id
                          ∷ reloads target.id
                          ∷ told target.id trade_confirm
                          ∷ ok_reply trade_confirm
                          ∷ [],
                    ))
              ]
      ]
    ]

    -- By the result of `Ready`.
    unfoldable pub after_ready : Player → Player → World m → Run (Service m × Reply) → Handled
    after_ready p target w fault = broken
    after_ready p target w (ran (service, reply)) =
        let w' = record w { service = service } in
        elim reply.code [
          | done ↦ confirm p target w'
          | failed ↦ handled (w', nok_reply trade_ready ∷ [])
          | waiting ↦
              told_to w' target.id
                (handled (w', told target.id trade_ready ∷ sent_back trade_ready ∷ []))
          | threw ↦ thrown
        ]

    pub handle_trade_ready : Context → World m → Handled
    handle_trade_ready c w = guarded true c trade_ready w λ p.
        named c trade_ready w (λ text. get_player (atoi text) w.players)
          λ target. after_ready p target w (ready m (some p) w.service)

    pub handle_trade_cancel : Context → World m → Handled
    handle_trade_cancel c w = guarded false c trade_cancel w λ p.
        named c trade_cancel w (λ text. get_player (atoi text) w.players)
          λ target. elim (cancel (some p) w.service.sessions) [
            | fault ↦ broken
            | ran (s, reply) ↦ elim reply.code [
              | done ↦ told_to w target.id (
                  handled
                    (with_sessions w s, told target.id trade_cancel ∷ ok_reply trade_cancel ∷ []))
              | _ ↦ handled (with_sessions w s, nok_reply trade_cancel ∷ [])
            ]
          ]

-- The four fields of HandleTradeAddItem: the item's id, the amount, and the slots in the window of the
-- trade and in the inventory.
pub record ItemFields : Type 0 where
  pub item_id : Bytes
  pub item_amount : Bytes
  pub item_trade_slot_index : Bytes
  pub item_inven_slot_index : Bytes

unfoldable pub item_fields : Option Bytes → Option ItemFields
item_fields payload = do
  (id, a) ← next_field payload 0
  (amount, b) ← next_field payload a
  (trade_slot, c) ← next_field payload b
  (inven_slot, d) ← next_field payload c
  some (record {
    item_id = id;
    item_amount = amount;
    item_trade_slot_index = trade_slot;
    item_inven_slot_index = inven_slot;
  })

-- The three calls of `std::stoi`, of which any may throw. The item's id stays a text: `is_number` says
-- whether `std::stoi` reads a number in it when the trade is carried out, and `id_of` is that number.
unfoldable pub trade_item : (Bytes → Option ℤ) → (Bytes → ℕ) → ItemFields → Option TradeItem
trade_item stoi id_of f = do
  kind ← stoi (take 1 f.item_id)
  amount ← stoi f.item_amount
  slot ← stoi f.item_inven_slot_index
  some (record {
    id = id_of f.item_id;
    is_number = elim (stoi f.item_id) [ none ↦ false | some n ↦ true ];
    item_type = kind -ℤ pos 1;
    amount = amount;
    slot_index = slot;
  })

module _ (m : Mysql) (stoi : Bytes → Option ℤ) (id_of : Bytes → ℕ) where
  -- After the upload: the other player's packet goes through the pointer in the trade session.
  unfoldable pub announce : ℕ → World m → Handled m
  announce target w = elim (find_address target w.players) [
    | none ↦ broken
    | some partner ↦
        told_to m w partner.id
          (handled (w, told partner.id trade_add_item ∷ ok_reply trade_add_item ∷ []))
  ]

  unfoldable pub upload_fields : Player → ℕ → ItemFields → World m → Handled m
  upload_fields p target f w = elim (trade_item stoi id_of f) [
    | none ↦ thrown
    | some item ↦ elim (upload_item (some p) item w.service.sessions) [
      | fault ↦ broken
      | ran (s, reply) ↦ elim reply.code [
        | done ↦ announce target (with_sessions m w s)
        | _ ↦ handled (with_sessions m w s, nok_reply trade_add_item ∷ [])
      ]
    ]
  ]

  pub handle_trade_add_item : Context → World m → Handled m
  handle_trade_add_item c w = guarded m false c trade_add_item w λ p.
      elim (get_target_player (some p) w.service.sessions) [
        | fault ↦ broken
        | ran found ↦ elim found [
          | none ↦ handled (w, nok_reply trade_add_item ∷ [])
          | some target ↦ elim (item_fields c.payload) [
            | none ↦ handled (w, nok_reply trade_add_item ∷ [])
            | some f ↦ upload_fields p target f w
          ]
        ]
      ]
