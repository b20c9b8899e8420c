-- ===== src/Map/Hits/Kills.antt =====
-- Each kill is of a living monster, and is reported once.
use ll2games_rpg.Prelude.{
  ℕ, suc, ◌+◌, ◌≡◌, ◌==◌, refl, ap, Bool, true, false, ◌&&◌, inl, inr, Bool-cases, none, some, List,
  [], ◌∷◌, arith, if◌then◌else◌, All, length,
}
use ll2games_rpg.Prelude.Int.{ℤ}
use ll2games_rpg.Prelude.Dict.{Dict, lookup, insert, lookup-insert}
use ll2games_rpg.Monster.{Monster, on_damaged}
use ll2games_rpg.Monster.Life.{on_damaged_reports}
use ll2games_rpg.Stat.Exp.{add_exp_total}
use ll2games_rpg.Map.Hits.{
  Tables, Fight, Attacker, MonsterHitResult, reward, rewarded, hit_result, after_hit, resolve_hit,
  resolve_skill_hit,
}

-- 1 for a living monster of the map, else 0.
abbrev pub alive_in : ℕ → Dict Monster → ℕ
alive_in id ms = elim (lookup id ms) [ none ↦ 0 | some m ↦ if m.is_alive then 1 else 0 ]

-- The reports that the monster was killed.
abbrev pub kills_of : ℕ → List MonsterHitResult → ℕ
kills_of id [] = 0
kills_of id (r ∷ rs) = (if (r.monster_instance_id == id) && r.dead then 1 else 0) + kills_of id rs

-- All hits are on monsters of the map.
abbrev pub OnMap : Dict Monster → List (ℕ × ℤ) → Type 0
OnMap ms = All (λ h. (m : Monster) × (lookup h.0 ms ≡ some m))

module _ {Gen : Type 0} (uniform : ℤ → ℤ → Gen → ℤ × Gen) (tables : Tables) (attacker : Attacker)
    (now : ℕ) where
  reward_keeps :
      (id : ℕ) (m : Monster) (f : Fight Gen)
      → (f' : Fight Gen) × (reward uniform tables attacker now id m f ≡ some f')
        × (f'.monsters ≡ f.monsters)
  unfolding reward
  reward_keeps id m f =
      let (r, ends) = add_exp_total tables.levels m.exp f.attacker in
      (rewarded uniform tables attacker now id m r.0 f, rw (ends, reward) refl, refl)

  after_hit_ends :
      (id : ℕ) (damage : ℤ) (f : Fight Gen) (out : Monster × Bool)
      → (f' : Fight Gen) × (r : MonsterHitResult) × (after_hit uniform tables attacker now id damage
            f out
          ≡ some (f', r))
        × (f'.monsters ≡ insert id out.0 f.monsters)
        × (r.monster_instance_id ≡ id)
        × (r.dead ≡ out.1)
  unfolding after_hit
  after_hit_ends id damage f (m, false) = (
    record f { monsters = insert id m f.monsters },
    hit_result id damage m false,
    refl,
    refl,
    refl,
    refl,
  )
  after_hit_ends id damage f (m, true) =
      let (f', ends, same) = reward_keeps id m (record f { monsters = insert id m f.monsters }) in
      (f', hit_result id damage m true, rw (ends, after_hit) refl, same, refl, refl)

  -- What one hit does to the monsters, and what it reports.
  resolve_hit_ends :
      (id : ℕ) (damage : ℤ) (f : Fight Gen) (m : Monster)
      → lookup id f.monsters ≡ some m
      → let out = on_damaged now attacker.address attacker.id damage m in
        (f' : Fight Gen) × (r : MonsterHitResult) × (resolve_hit uniform tables attacker now id
            damage f
          ≡ some (f', r))
        × (f'.monsters ≡ insert id out.0 f.monsters)
        × (r.monster_instance_id ≡ id)
        × (r.dead ≡ out.1)
  unfolding resolve_hit
  resolve_hit_ends id damage f m there =
      let (f', r, ends, monsters, who, dead) =
        after_hit_ends id damage f (on_damaged now attacker.address attacker.id damage m) in
      (f', r, rw (there, resolve_hit) ends, monsters, who, dead)

  -- The accounts of one monster under a hit on a monster of the map.
  hit_accounts :
      (j id : ℕ) (damage : ℤ) (ms : Dict Monster) (m : Monster)
      → lookup id ms ≡ some m
      → let out = on_damaged now attacker.address attacker.id damage m in
        (if (id == j) && out.1 then 1 else 0) + alive_in j (insert id out.0 ms) ≡ alive_in j ms
  hit_accounts j id damage ms m there =
      let out = on_damaged now attacker.address attacker.id damage m in
      ground (
        arith,
        lookup-insert id j out.0 ms,
        on_damaged_reports now attacker.address attacker.id damage m,
      )

  insert-OnMap :
      (id : ℕ) (m : Monster) (ms : Dict Monster) (hits : List (ℕ × ℤ))
      → OnMap ms hits
      → OnMap (insert id m ms) hits
  insert-OnMap id m ms [] h = tt
  insert-OnMap id m ms ((j, damage) ∷ hits) ((n, there), h) =
      let still = lookup-insert id j m ms in
      (
        elim (Bool-cases (j == id)) [
          | inl same ↦ (m, ground (arith, still))
          | inr other ↦ (n, ground (arith, still))
        ],
        insert-OnMap id m ms hits h,
      )

  -- Whatever hits on monsters of a map are resolved, and whatever the tables of levels and drops say,
  -- the resolution ends with one report for each hit, and a monster is reported as killed once if it
  -- was alive before and is dead afterwards, and else not at all.
  pub resolve_skill_hit_kills :
      (hits : List (ℕ × ℤ)) (f : Fight Gen) (j : ℕ)
      → OnMap f.monsters hits
      → (f' : Fight Gen) × (results : List MonsterHitResult) × (resolve_skill_hit uniform tables
            attacker now hits f
          ≡ some (f', results))
        × (length results ≡ length hits)
        × (kills_of j results + alive_in j f'.monsters ≡ alive_in j f.monsters)
  unfolding resolve_skill_hit
  resolve_skill_hit_kills [] f j h = (f, [], refl, refl, omega arith)
  resolve_skill_hit_kills ((id, damage) ∷ hits) f j ((m, there), h) =
      let (f1, r, ends, monsters, who, dead) = resolve_hit_ends id damage f m there in
      let m' = (on_damaged now attacker.address attacker.id damage m).0 in
      let h1 : OnMap f1.monsters hits = rw monsters (insert-OnMap id m' f.monsters hits h) in
      let (f2, rs, ends2, size, accounts) = resolve_skill_hit_kills hits f1 j h1 in
      let one = hit_accounts j id damage f.monsters m there in
      (
        f2,
        r ∷ rs,
        rw (ends, ends2, resolve_skill_hit) refl,
        ap suc size,
        ground (arith, accounts, one, monsters, who, dead),
      )
