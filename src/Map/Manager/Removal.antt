-- ===== src/Map/Manager/Removal.antt =====
-- Which maps a request removes.
use ll2games_rpg.Prelude.{
  ℕ, ◌≤◌, ◌%◌, ◌^◌, ◌≡◌, ◌==◌, refl, ◌∙◌, ap, Bool, false, ◌||◌, inl, inr, Option-cases, none, List,
  [], ◌∷◌, ◌++◌, arith, if◌then◌else◌,
}
use ll2games_rpg.Prelude.Dict.{Dict, lookup, erase, lookup-erase}
use ll2games_rpg.Map.Instance.{MapInstance}
use ll2games_rpg.Map.Manager.{MapManager, destroy_request, remove_ids, remove_map}

-- The requests of several maps, one after another.
pub requests : List ℕ → MapManager → MapManager
requests [] mm = mm
requests (id ∷ ids) mm = requests ids (destroy_request id mm)

-- Some request names this id, as far as 16 bits tell.
abbrev pub asked : ℕ → List ℕ → Bool
asked k [] = false
asked k (id ∷ ids) = (k == id % 2 ^ 16) || asked k ids

abbrev queued : ℕ → List ℕ → Bool
queued k [] = false
queued k (id ∷ ids) = (k == id) || queued k ids

queued-append : (k : ℕ) (xs ys : List ℕ) → queued k (xs ++ ys) ≡ queued k xs || queued k ys
queued-append k [] ys = refl
queued-append k (x ∷ xs) ys = ground (arith, queued-append k xs ys)

requests_queue :
    (k : ℕ) (ids : List ℕ) (mm : MapManager)
    → ((requests ids mm).maps ≡ mm.maps)
      × (queued k (requests ids mm).destroy_queue ≡ queued k mm.destroy_queue || asked k ids)
unfolding requests destroy_request
requests_queue k [] mm = (refl, ground arith)
requests_queue k (id ∷ ids) mm =
    let (same, all) = requests_queue k ids (destroy_request id mm) in
    (same, ground (arith, queued-append k mm.destroy_queue ((id % 2 ^ 16) ∷ [])))

remove_ids-lookup :
    (k : ℕ) (queue : List ℕ) (maps : Dict MapInstance)
    → lookup k (remove_ids queue maps) ≡ (if queued k queue then none else lookup k maps)
unfolding remove_ids
remove_ids-lookup k [] maps = refl
remove_ids-lookup k (id ∷ queue) maps = elim (Option-cases (lookup id maps)) [
  | inl missing ↦ rw (missing, remove_ids) (ground (arith, remove_ids-lookup k queue maps))
  | inr (map, e) ↦
      rw (e, remove_ids)
        (ground (arith, remove_ids-lookup k queue (erase id maps), lookup-erase id k maps))
]

asked-small : (k : ℕ) (ids : List ℕ) → 2 ^ 16 ≤ k → asked k ids ≡ false
asked-small k [] big = refl
asked-small k (id ∷ ids) big = ground (arith, asked-small k ids big)

remove_requests :
    (k : ℕ) (ids : List ℕ) (mm : MapManager)
    → mm.destroy_queue ≡ []
    → lookup k (remove_map (requests ids mm)).maps
      ≡ (if asked k ids then none else lookup k mm.maps)
unfolding remove_map
remove_requests k ids mm clean =
    let (same, all) = requests_queue k ids mm in
    let none_before : queued k mm.destroy_queue ≡ false = rw clean refl in
    ground (
      arith,
      remove_ids-lookup k (requests ids mm).destroy_queue (requests ids mm).maps,
      same,
      all,
      none_before,
    )

-- Once the queue is empty, requests to destroy maps, when they are carried out, remove exactly the
-- maps whose id is the remainder modulo 65536 of an id in a request; so a map with an id of 65536 or
-- more is never removed, not even on its own request.
pub remove_map_exact :
    (k big : ℕ) (ids : List ℕ) (mm : MapManager)
    → mm.destroy_queue ≡ []
    → 2 ^ 16 ≤ big
    → (lookup k (remove_map (requests ids mm)).maps
        ≡ (if asked k ids then none else lookup k mm.maps))
      × (lookup big (remove_map (requests (big ∷ ids) mm)).maps ≡ lookup big mm.maps)
remove_map_exact k big ids mm clean large = (
  remove_requests k ids mm clean,
  remove_requests big (big ∷ ids) mm clean
      ∙ ap (λ b. if b then none else lookup big mm.maps) (asked-small big (big ∷ ids) large),
)
