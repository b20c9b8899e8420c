-- ===== src/Map/Portal/Behind.antt =====
-- What a player who goes through a portal leaves behind.
use ll2games_rpg.Prelude.{
  ℕ, ◌≡◌, ◌==◌, refl, ap, ◌∙◌, Bool, false, Option, none, some, option_cases, arith,
}
use ll2games_rpg.Prelude.Dict.{lookup, insert, erase, lookup-erase, insert_self, insert_other}
use ll2games_rpg.Map.Instance.{MapInstance, on_enter, on_leave}
use ll2games_rpg.Map.Manager.{MapInitData, MapManager, init_data, get_or_create}
use ll2games_rpg.Map.Portal.{
  Visitor, Places, failed, null_map, entered, handle_portal_use, Left, left, leave_game,
}

module _ (load : ℕ → Option MapInitData) (has_player destroy_requested : Bool) where
  -- A map that is there stays as it is when another one is asked for.
  get_or_create_other :
      (a b : ℕ) (m : MapInstance) (mm : MapManager)
      → (a == b) ≡ false
      → lookup a mm.maps ≡ some m
      → lookup a (get_or_create load has_player destroy_requested b mm).0.maps ≡ some m
  unfolding get_or_create
  get_or_create_other a b m mm other e =
      option_cases (λ (r : MapManager × Option MapInstance). lookup a r.0.maps ≡ some m)
        (lookup b mm.maps)
        (λ missing.
          option_cases (λ (r : MapManager × Option MapInstance). lookup a r.0.maps ≡ some m)
            (init_data load b mm) (λ no_data. e)
            (λ data_read known. insert_other b a _ mm.maps other ∙ e))
        (λ map there. e)

  -- Through the portal to a map, and out of the game.
  abbrev pub through_and_out : ℕ → ℕ → ℕ → Places → Left
  through_and_out now id b s = elim (handle_portal_use load has_player destroy_requested id b s) [
    | failed ↦ left s
    | null_map ↦ left s
    | entered s' ↦ leave_game now id s'
  ]

  abbrev through : ℕ → ℕ → Visitor → MapInstance → Places → Places
  through id b v map s =
      let manager = (get_or_create load has_player destroy_requested b s.manager).0 in
      record {
        manager = record manager { maps = insert b (on_enter id v.address map) manager.maps };
        players = insert id (record v { current_map = some b }) s.players;
      }

  goes_through :
      (id b : ℕ) (v : Visitor) (map : MapInstance) (s : Places)
      → lookup id s.players ≡ some v
      → (get_or_create load has_player destroy_requested b s.manager).1 ≡ some map
      → handle_portal_use load has_player destroy_requested id b s ≡ entered (through id b v map s)
  unfolding handle_portal_use
  goes_through id b v map s e found = rw (e, handle_portal_use) (rw (found, handle_portal_use) refl)

  goes_out :
      (now id b : ℕ) (v : Visitor) (map : MapInstance) (s : Places)
      → leave_game now id (through id b v map s)
        ≡ left (record {
          manager = record (through id b v map s).manager {
            maps =
                insert b
                  (on_leave now id (on_enter id v.address map))
                  (through id b v map s).manager.maps;
          };
          players = erase id (through id b v map s).players;
        })
  unfolding leave_game
  goes_out now id b v map s =
      let manager = (get_or_create load has_player destroy_requested b s.manager).0 in
      rw (insert_self id (record v { current_map = some b }) s.players, leave_game)
        (rw (insert_self b (on_enter id v.address map) manager.maps, leave_game) refl)

  -- A player who is listed in a map, goes through a portal to another map that can be opened, and leaves
  -- the game, is out of the table of players, and still listed in the first map, with the address that its
  -- object had.
  pub portal_leaves_behind :
      (now id a b : ℕ) (v : Visitor) (m map : MapInstance) (s : Places)
      → lookup id s.players ≡ some v
      → lookup a s.manager.maps ≡ some m
      → lookup id m.player_list ≡ some v.address
      → (a == b) ≡ false
      → (get_or_create load has_player destroy_requested b s.manager).1 ≡ some map
      → (s' : Places) × (through_and_out now id b s ≡ left s')
        × (lookup id s'.players ≡ none)
        × (m' : MapInstance) × (lookup a s'.manager.maps ≡ some m')
        × (lookup id m'.player_list ≡ some v.address)
  portal_leaves_behind now id a b v m map s e at listed other found =
      let manager = (get_or_create load has_player destroy_requested b s.manager).0 in
      let came = on_enter id v.address map in
      (
        _,
        ap (λ r. elim r [ failed ↦ left s | null_map ↦ left s | entered s' ↦ leave_game now id s' ])
              (goes_through id b v map s e found)
            ∙ goes_out now id b v map s,
        ground (arith, lookup-erase id id (through id b v map s).players),
        m,
        insert_other b a (on_leave now id came) (insert b came manager.maps) other
            ∙ insert_other b a came manager.maps other
            ∙ get_or_create_other a b m s.manager other at,
        listed,
      )
