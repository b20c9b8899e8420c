-- ===== src/Server/Channel.antt =====
-- How full a channel is: ChannelServer::UpdateChannelStateToRedis writes it, and
-- SERVER/src/WORLD/app/ChannelManager.cpp tells a client that chooses a channel. Redis holds texts; only
-- those that the two compare are named. Counts above 2^31 / 100, at which the `int` product of the source
-- overflows, are out of the model's range.
use native.Mathlib.Nat.{le-div_iff_mul-le, mod-eq_of_lt}
use ll2games_rpg.Prelude.{
  ℕ, ◌*◌, ◌/◌, ◌≤◌, ◌<◌, ◌≡◌, refl, Bool, true, false, not, Option, none, some, ◌==◌, ltb, leb, min,
  if◌then◌else◌, ◌^◌, ◌∙◌, ap, ap₂, inl, inr, Bool-cases, leb→le, lt→ltb, length, arith,
}
use ll2games_rpg.Prelude.Dict.{Dict, lookup, insert, insert_self}
use ll2games_rpg.Server.{Server}
use ll2games_rpg.Server.Sessions.{IsServed}

-- E_ChannelState.
pub data ChannelState : Type 0 where
  normal busy full die : ChannelState

-- The field "state" of a hash: ChannelState::NORMAL, BUSY, FULL, or another text.
pub data StateText : Type 0 where
  normal_text busy_text full_text : StateText
  other_text : ℕ → StateText

-- The hash at a key: its "state", if it has that field, and its "percentage".
pub record Status : Type 0 where
  pub state : Option StateText
  pub percentage : ℕ

-- The hashes in Redis that have not expired, by their keys.
abbrev pub Redis : Type 0
Redis = Dict Status

pub percentage_of : ℕ → ℕ → ℕ
percentage_of cur_user max_user = min (if ltb 0 max_user then cur_user * 100 / max_user else 0) 100

pub state_of : ℕ → StateText
state_of percentage =
    if leb 90 percentage then full_text else if leb 70 percentage then busy_text else normal_text

-- `connected` is false for a null pointer, `stored` is the answer of HSetAll.
pub update_channel_state : Bool → Bool → ℕ → ℕ → ℕ → Redis → Redis
update_channel_state connected stored key cur_user max_user redis =
    let percentage = percentage_of cur_user max_user in
    if not connected
    then redis
    else if not stored
    then redis
    else insert key (record { state = some (state_of percentage); percentage = percentage }) redis

pub read_state : StateText → ChannelState
read_state normal_text = normal
read_state busy_text = busy
read_state full_text = full
read_state (other_text n) = die

-- CanEnterChannel.
pub can_enter_channel : Bool → ℕ → Redis → ChannelState
can_enter_channel connected key redis = if not connected then die else elim (lookup key redis) [
  | none ↦ die
  | some status ↦ elim status.state [ none ↦ die | some text ↦ read_state text ]
]

-- What the code reads of a ChannelInfo.
pub record ChannelInfo : Type 0 where
  pub ip : ℕ
  pub port : ℕ
  pub alive : ℕ

pub select_channel : ℕ → Dict ChannelInfo → Option ChannelInfo
select_channel channel_id channels = elim (lookup channel_id channels) [
  | none ↦ none
  | some info ↦ if info.alive == 0 then none else some info
]

percentage_at_least :
    (n cur_user max_user : ℕ)
    → 0 < max_user
    → n ≤ 100
    → leb n (percentage_of cur_user max_user) ≡ leb (n * max_user) (cur_user * 100)
unfolding percentage_of
percentage_at_least n cur_user max_user h k =
    let exact = le-div_iff_mul-le {k = max_user} {x = n} {y = cur_user * 100} h in
    elim (Bool-cases (leb (n * max_user) (cur_user * 100))) [
      | inl enough ↦
          let reached = exact.1 (leb→le _ _ enough) in
          rw (enough, lt→ltb 0 max_user h) (ground arith)
      | inr short ↦
          rw (short, lt→ltb 0 max_user h)
            (elim (Bool-cases (leb n (min (cur_user * 100 / max_user) 100))) [
              | inl reached ↦
                  let enough = exact.0 (omega (arith, leb→le _ _ reached)) in absurd (ground arith)
              | inr below ↦ below
            ])
    ]

-- What a client is told of a channel with so many users of so many at most.
abbrev pub crowd : ℕ → ℕ → ChannelState
crowd users max_user =
    if leb (90 * max_user) (users * 100)
    then full
    else if leb (70 * max_user) (users * 100)
    then busy
    else normal

crowd_read :
    (a b : Bool)
    → read_state (if a then full_text else if b then busy_text else normal_text)
      ≡ (if a then full else if b then busy else normal)
unfolding read_state
crowd_read true b = refl
crowd_read false true = refl
crowd_read false false = refl

read-state_of :
    (users max_user : ℕ)
    → 0 < max_user
    → read_state (state_of (percentage_of users max_user)) ≡ crowd users max_user
unfolding state_of
read-state_of users max_user h =
    crowd_read (leb 90 (percentage_of users max_user)) (leb 70 (percentage_of users max_user))
    ∙ ap₂ (λ a b. if a then full else if b then busy else normal)
        (percentage_at_least 90 users max_user h (omega arith))
        (percentage_at_least 70 users max_user h (omega arith))

-- After a channel has stored its state under the key that the world server reads, the world server
-- tells a client by the number of the channel's sessions: it is full from 90 hundredths of the users
-- that it may have, which are not 0, and busy from 70.
pub can_enter_by_sessions :
    (s : Server) (key max_user : ℕ) (redis : Redis)
    → IsServed s
    → length s.sessions < 2 ^ 32
    → 0 < max_user
    → can_enter_channel true key
        (update_channel_state true true key s.current_user_count max_user redis)
      ≡ crowd (length s.sessions) max_user
unfolding can_enter_channel update_channel_state
can_enter_by_sessions s key max_user redis v few some_max =
    let count : s.current_user_count ≡ length s.sessions = v.counted ∙ mod-eq_of_lt few in
    let percentage = percentage_of s.current_user_count max_user in
    let status : Status = record { state = some (state_of percentage); percentage = percentage } in
    rw (insert_self key status redis)
      (read-state_of s.current_user_count max_user some_max ∙ ap (λ n. crowd n max_user) count)
