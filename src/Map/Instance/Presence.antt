-- ===== src/Map/Instance/Presence.antt =====
-- The players that a map counts are the players in it, and it is destroyed only when it is empty.
use ll2games_rpg.Prelude.{
  ℕ, suc, ◌+◌, ◌-◌, ◌≤◌, ◌<◌, ◌%◌, ◌^◌, ◌≡◌, ◌==◌, refl, sym, ◌⊎◌, ap, subst, Bool, true, false,
  not, inl, inr, Bool-cases, Option-cases, none, some, [], ◌∷◌, arith, length,
}
use ll2games_rpg.Prelude.Dict.{
  Dict, lookup, insert, erase, Distinct, insert-Distinct, erase-Distinct, erase-missing,
}
use ll2games_rpg.Map.Instance.{MapInstance, new_map, on_enter, on_leave, remove_map, update, limit}

-- What happens to a map after `GetOrCreate`, which the first player enters at once. No more players
-- than its counter can count are in it at any time.
pub data Reached : MapInstance → Type 0 where
  first :
      (has_player destroy_requested : Bool) (data_map_id player_id player : ℕ)
      → Reached (on_enter player_id player (new_map has_player destroy_requested data_map_id))
  enters :
      {m : MapInstance} (player_id player : ℕ)
      → length m.player_list < 65535
      → Reached m
      → Reached (on_enter player_id player m)
  leaves : {m : MapInstance} (now player_id : ℕ) → Reached m → Reached (on_leave now player_id m)
  updates : {m : MapInstance} (now : ℕ) → Reached m → Reached (update now m).0

pub record IsValid (m : MapInstance) : Type 0 where
  pub counted : m.player_count ≡ length m.player_list
  pub few : length m.player_list ≤ 65535
  pub flag : m.has_player ≡ not (length m.player_list == 0)
  pub request : m.destroy_requested ≡ true → m.has_player ≡ false
  pub distinct : Distinct m.player_list

length-insert : (k v : ℕ) (m : Dict ℕ) → lookup k m ≡ none → length (insert k v m) ≡ suc (length m)
length-insert k v [] e = refl
length-insert k v ((j, w) ∷ m) e = ground (arith, length-insert k v m)

length-erase :
    (k v : ℕ) (m : Dict ℕ) → Distinct m → lookup k m ≡ some v → suc (length (erase k m)) ≡ length m
length-erase k v [] d e = cc
length-erase k v ((j, w) ∷ m) d e = elim (Bool-cases (k == j)) [
  | inl same ↦
      rw same
        (let is : k ≡ j = ground arith in ground (arith, ap length (erase-missing k m (rw is d.0))))
  | inr other ↦ rw other (ground (arith, length-erase k v m d.1))
]

first-IsValid :
    (b b' : Bool) (id player_id player : ℕ) → IsValid (on_enter player_id player (new_map b b' id))
unfolding on_enter new_map
first-IsValid b b' id player_id player = record {
  counted = refl;
  few = omega arith;
  flag = refl;
  request = λ e. ground arith;
  distinct = (refl, tt);
}

on_enter-IsValid :
    (player_id player : ℕ) (m : MapInstance)
    → length m.player_list < 65535
    → IsValid m
    → IsValid (on_enter player_id player m)
unfolding on_enter
on_enter-IsValid player_id player m room v = elim (Option-cases (lookup player_id m.player_list)) [
  | inr (old, e) ↦ rw (e, on_enter) v
  | inl new ↦
      let size = length-insert player_id player m.player_list new in
      elim (Bool-cases (m.player_count == 0)) [
        | inl empty ↦
            rw (new, empty, on_enter)
              (record {
                counted = ground (arith, v.counted);
                few = ground (arith, v.counted);
                flag = ground (arith, size);
                request = λ e. ground arith;
                distinct = insert-Distinct player_id player m.player_list v.distinct;
              })
        | inr others ↦
            rw (new, others, on_enter)
              (record {
                counted = ground (arith, v.counted);
                few = ground (arith, v.counted);
                flag = ground (arith, v.flag, v.counted);
                request = v.request;
                distinct = insert-Distinct player_id player m.player_list v.distinct;
              })
      ]
]

on_leave-IsValid :
    (now player_id : ℕ) (m : MapInstance) → IsValid m → IsValid (on_leave now player_id m)
unfolding on_leave
on_leave-IsValid now player_id m v = elim (Option-cases (lookup player_id m.player_list)) [
  | inl nobody ↦ rw (nobody, on_leave) v
  | inr (player, e) ↦
      let size = length-erase player_id player m.player_list v.distinct e in
      let count : (m.player_count + 2 ^ 16 - 1) % 2 ^ 16 ≡ length (erase player_id m.player_list) =
        ground (arith, v.counted, v.few, size) in
      let distinct = erase-Distinct player_id m.player_list v.distinct in
      elim (Bool-cases ((m.player_count + 2 ^ 16 - 1) % 2 ^ 16 == 0)) [
        | inl empty ↦
            rw (e, empty, on_leave)
              (record {
                counted = count;
                few = ground (arith, v.few);
                flag = ground arith;
                request = λ e'. refl;
                distinct = distinct;
              })
        | inr others ↦
            rw (e, others, on_leave)
              (record {
                counted = count;
                few = ground (arith, v.few);
                flag = ground (arith, v.flag);
                request = v.request;
                distinct = distinct;
              })
      ]
]

update_cases :
    (now : ℕ) (m : MapInstance)
    → ((update now m).0 ≡ m)
      ⊎ ((m.has_player ≡ false) × ((update now m).0 ≡ record m { destroy_requested = true }))
unfolding update remove_map
update_cases now m = ground arith

update-IsValid : (now : ℕ) (m : MapInstance) → IsValid m → IsValid (update now m).0
update-IsValid now m v = elim (update_cases now m) [
  | inl same ↦ subst IsValid (sym same) v
  | inr (empty, asks) ↦ subst IsValid (sym asks) (record {
    counted = v.counted;
    few = v.few;
    flag = v.flag;
    request = λ e. empty;
    distinct = v.distinct;
  })
]

-- In a map that its first player entered right after its construction, whatever the constructor left
-- uninitialised and whoever enters, leaves and updates follow, up to 65535 players at a time: the
-- counter is the number of players in the map, the flag says whether it is 0, and a map that has asked
-- to be destroyed is empty.
pub Reached-IsValid : (m : MapInstance) → Reached m → IsValid m
Reached-IsValid _ (first b b' id player_id player) = first-IsValid b b' id player_id player
Reached-IsValid _ (enters {m = m} player_id player room r) =
    on_enter-IsValid player_id player m room (Reached-IsValid m r)
Reached-IsValid _ (leaves {m = m} now player_id r) =
    on_leave-IsValid now player_id m (Reached-IsValid m r)
Reached-IsValid _ (updates {m = m} now r) = update-IsValid now m (Reached-IsValid m r)

-- A map that a player has entered asks to be destroyed only when nobody is in it and at least five
-- minutes after the last player left, and then it does not ask again.
pub request_once :
    (m : MapInstance) (now later id : ℕ)
    → Reached m
    → (update now m).1 ≡ some id
    → (m.player_list ≡ [])
      × (m.empty_time + limit ≤ now)
      × ((update later (update now m).0).1 ≡ none)
unfolding update remove_map
request_once m now later id r asked =
    let v = Reached-IsValid m r in
    (empty_list m.player_list (ground (arith, v.flag)), ground arith, ground arith)
  where
    empty_list : (l : Dict ℕ) → length l ≡ 0 → l ≡ []
    empty_list [] e = refl
    empty_list (x ∷ l) e = absurd (omega arith)
