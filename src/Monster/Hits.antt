-- ===== src/Monster/Hits.antt =====
-- A series of hits on one monster.
use ll2games_rpg.Prelude.{
  ℕ, suc, ◌+◌, ◌≡◌, refl, sym, ap, subst, inl, inr, Bool, true, false, not, List, [], ◌∷◌, arith,
  if◌then◌else◌, Bool-cases,
}
use ll2games_rpg.Prelude.Int.{ℤ, pos, pos_part, ◌-ℤ◌, ◌<ℤ◌, leb_ℤ, -ℤ_parts, eq_of_parts, eq_parts}
use ll2games_rpg.Monster.{Monster, on_damaged}
use ll2games_rpg.Monster.Life.{IsValid, ignored, kills, hurts, killed, hurt, on_damaged-IsValid}

-- The time of the hit, the attacker with its id, and the damage.
abbrev pub Hit : Type 0
Hit = ℕ × ℕ × ℕ × ℤ

abbrev pub damage_of : Hit → ℤ
damage_of (now, attacker, attacker_id, damage) = damage

abbrev hit : Hit → Monster → Monster × Bool
hit (now, attacker, attacker_id, damage) m = on_damaged now attacker attacker_id damage m

-- The monster after all hits, and how many of them reported that they killed it.
pub hit_all : List Hit → Monster → Monster × ℕ
hit_all [] m = (m, 0)
hit_all (h ∷ hs) m =
    let (m', killed) = hit h m in
    let (m'', kills) = hit_all hs m' in (m'', if killed then suc kills else kills)

-- The damage of the hits that have some.
pub total : List Hit → ℕ
total [] = 0
total (h ∷ hs) = pos_part (damage_of h) + total hs

hit_all-dead : (hs : List Hit) (m : Monster) → m.is_alive ≡ false → hit_all hs m ≡ (m, 0)
unfolding hit_all
hit_all-dead [] m gone = refl
hit_all-dead ((now, attacker, attacker_id, damage) ∷ hs) m gone =
    rw (ignored now attacker attacker_id damage m (inl gone), hit_all-dead hs m gone) refl

-- How a series of hits with `t` damage leaves a living monster.
abbrev pub Outcome : Monster → ℕ → Monster × ℕ → Type 0
Outcome m t (m', kills) =
    (kills ≡ (if leb_ℤ m.hp (pos t) then 1 else 0))
    × (m'.is_alive ≡ not (leb_ℤ m.hp (pos t)))
    × (m'.hp ≡ (if leb_ℤ m.hp (pos t) then pos 0 else m.hp -ℤ pos t))

abbrev go_on : List Hit → Monster × Bool → Monster × ℕ
go_on hs (m', killed) =
    let (m'', kills) = hit_all hs m' in (m'', if killed then suc kills else kills)

none-Outcome : (m : Monster) → pos 0 <ℤ m.hp → m.is_alive ≡ true → Outcome m 0 (m, 0)
none-Outcome m low alive =
    let no_damage : m.hp ≡ m.hp -ℤ pos 0 = eq_of_parts _ _ (omega (arith, -ℤ_parts m.hp (pos 0))) in
    ground arith

killed-Outcome :
    (hs : List Hit) (m m' : Monster) (t : ℕ)
    → m'.is_alive ≡ false
    → m'.hp ≡ pos 0
    → leb_ℤ m.hp (pos t) ≡ true
    → Outcome m t (go_on hs (m', true))
killed-Outcome hs m m' t gone empty d =
    subst (λ r. Outcome m t (r.0, suc r.1)) (sym (hit_all-dead hs m' gone)) (ground arith)

hurt-Outcome :
    (m m' : Monster) (d t : ℕ) (r : Monster × ℕ)
    → m'.hp ≡ m.hp -ℤ pos d
    → Outcome m' t r
    → Outcome m (d + t) r
hurt-Outcome m m' d t (m'', kills) e (k, a, h) =
    let same : leb_ℤ m'.hp (pos t) ≡ leb_ℤ m.hp (pos (d + t)) =
      ground (arith, -ℤ_parts m.hp (pos d), eq_parts e) in
    let left : m'.hp -ℤ pos t ≡ m.hp -ℤ pos (d + t) = eq_of_parts _ _ (
      omega (
        arith,
        eq_parts e,
        -ℤ_parts m.hp (pos d),
        -ℤ_parts m'.hp (pos t),
        -ℤ_parts m.hp (pos (d + t)),
      )) in
    ground arith

-- A living monster dies of a series of hits exactly when the damage of the hits that have some reaches
-- its HP. Then exactly one hit reports the kill, else none does, and the damage is what is missing
-- from its HP.
pub hits_kill_once :
    (hs : List Hit) (m : Monster)
    → IsValid m
    → m.is_alive ≡ true
    → Outcome m (total hs) (hit_all hs m)
unfolding hit_all total
hits_kill_once [] m v alive = none-Outcome m (v.some_hp alive).0 alive
hits_kill_once ((now, attacker, attacker_id, damage) ∷ hs) m v alive =
    let free : m.dead_request ≡ false = ground (arith, v.request) in
    elim (Bool-cases (leb_ℤ damage (pos 0))) [
      | inl zero_damage ↦
          let nothing : total hs ≡ pos_part damage + total hs = ground arith in
          subst (λ r. Outcome m (pos_part damage + total hs) (go_on hs r))
            (sym (ignored now attacker attacker_id damage m (inr zero_damage)))
            (subst (λ t. Outcome m t (hit_all hs m)) nothing (hits_kill_once hs m v alive))
      | inr real ↦
          let size : damage ≡ pos (pos_part damage) = ground arith in
          elim (Bool-cases (leb_ℤ (m.hp -ℤ damage) (pos 0))) [
            | inl d ↦
                subst (λ r. Outcome m (pos_part damage + total hs) (go_on hs r))
                  (sym (kills now attacker attacker_id damage m alive free real d))
                  (killed-Outcome hs m (killed now attacker attacker_id m)
                    (pos_part damage + total hs) refl refl (ground (arith, -ℤ_parts m.hp damage)))
            | inr l ↦
                let step = hurts now attacker attacker_id damage m alive free real l in
                let v' : IsValid (hurt attacker attacker_id damage m) =
                  subst (λ r. IsValid r.0) step
                    (on_damaged-IsValid now attacker attacker_id damage m v) in
                subst (λ r. Outcome m (pos_part damage + total hs) (go_on hs r)) (sym step)
                  (hurt-Outcome m (hurt attacker attacker_id damage m) (pos_part damage) (total hs)
                    (hit_all hs (hurt attacker attacker_id damage m)) (ap (◌-ℤ◌ m.hp) size)
                    (hits_kill_once hs (hurt attacker attacker_id damage m) v' alive))
          ]
    ]
