-- ===== src/Collider/Squares.antt =====
-- Squares, distances and the tests on them, as natural numbers.
use ll2games_rpg.Prelude.{ℕ, suc, ◌+◌, ◌*◌, ◌≤◌, ◌≡◌, true, false, arith, ap}
use ll2games_rpg.Prelude.Int.{
  ℤ, pos, negsuc, pos_part, neg_part, ◌+ℤ◌, ◌-ℤ◌, ◌*ℤ◌, ◌≤ℤ◌, leb_ℤ, eq_parts,
}
use ll2games_rpg.Collider.{Vec2, fabs, max_ℤ, clamp, distance_square}

abbrev pub gap : ℤ → ℕ
gap d = pos_part d + neg_part d

pub mul_self : (d : ℤ) → d *ℤ d ≡ pos (gap d * gap d)
unfolding ◌*ℤ◌
mul_self (pos n) = grind arith
mul_self (negsuc n) = grind arith

pub square_mono : (a b : ℕ) → a ≤ b → a * a ≤ b * b
square_mono a b h = grind arith

pub fabs-gap : (d : ℤ) → fabs d ≡ pos (gap d)
unfolding fabs
fabs-gap (pos n) = ap pos {x = n} {y = n + 0} (omega arith)
fabs-gap (negsuc n) = ap pos {x = suc n} {y = 0 + suc n} (omega arith)

pub leb_ℤ-le : (a b : ℤ) → leb_ℤ a b ≡ true → a ≤ℤ b
leb_ℤ-le a b h = ground arith

pub le-leb_ℤ : (a b : ℤ) → a ≤ℤ b → leb_ℤ a b ≡ true
le-leb_ℤ a b h = ground arith

pub distance_square_gaps :
    (a b : Vec2)
    → distance_square a b
      ≡ pos (
          gap (a.x_pos -ℤ b.x_pos) * gap (a.x_pos -ℤ b.x_pos)
          + gap (a.y_pos -ℤ b.y_pos) * gap (a.y_pos -ℤ b.y_pos))
unfolding distance_square ◌+ℤ◌
distance_square_gaps a b =
    rw (mul_self (a.x_pos -ℤ b.x_pos)) (rw (mul_self (a.y_pos -ℤ b.y_pos)) (ground arith))

-- No point of the range is nearer than the clamped one.
pub clamp_nearest : (c lo hi x : ℤ) → lo ≤ℤ x → x ≤ℤ hi → gap (c -ℤ clamp c lo hi) ≤ gap (c -ℤ x)
unfolding clamp ◌-ℤ◌
clamp_nearest c lo hi x h k = ground arith

pub clamp_within : (c lo hi : ℤ) → lo ≤ℤ hi → (lo ≤ℤ clamp c lo hi) × (clamp c lo hi ≤ℤ hi)
unfolding clamp
clamp_within c lo hi h = (ground arith, ground arith)

pub fabs_le :
    (d w : ℤ)
    → leb_ℤ (fabs d) w ≡ true
    → (d ≤ℤ w) × (neg_part d + neg_part w ≤ pos_part w + pos_part d)
unfolding fabs
fabs_le (pos n) w h = ground arith
fabs_le (negsuc n) w h = ground arith

pub le_fabs :
    (d w : ℤ) → d ≤ℤ w → neg_part d + neg_part w ≤ pos_part w + pos_part d → leb_ℤ (fabs d) w ≡ true
unfolding fabs
le_fabs (pos n) w h k = ground arith
le_fabs (negsuc n) w h k = ground arith

pub max_bounds : (a b : ℤ) → (a ≤ℤ max_ℤ a b) × (b ≤ℤ max_ℤ a b)
unfolding max_ℤ
max_bounds a b = (ground arith, ground arith)

pub max_least : (a b c : ℤ) → a ≤ℤ c → b ≤ℤ c → max_ℤ a b ≤ℤ c
unfolding max_ℤ
max_least a b c h k = ground arith

-- What is nearer along both axes is nearer.
pub distance_mono :
    (c n x : Vec2)
    → gap (c.x_pos -ℤ n.x_pos) ≤ gap (c.x_pos -ℤ x.x_pos)
    → gap (c.y_pos -ℤ n.y_pos) ≤ gap (c.y_pos -ℤ x.y_pos)
    → distance_square c n ≤ℤ distance_square c x
distance_mono c n x h k =
    let across = square_mono _ _ h in
    let along = square_mono _ _ k in
    let dn = eq_parts (distance_square_gaps c n) in
    let dx = eq_parts (distance_square_gaps c x) in omega arith

pub fabs_bounds :
    (d : ℤ) → (d ≤ℤ fabs d) × (neg_part d + neg_part (fabs d) ≤ pos_part (fabs d) + pos_part d)
unfolding fabs
fabs_bounds (pos n) = (omega arith, omega arith)
fabs_bounds (negsuc n) = (omega arith, omega arith)

pub gap_le : (d w : ℤ) → d ≤ℤ w → neg_part d + neg_part w ≤ pos_part w + pos_part d → gap d ≤ gap w
gap_le (pos n) w h k = omega arith
gap_le (negsuc n) w h k = omega arith

pub fabs_up : (d : ℤ) → pos 0 ≤ℤ d → fabs d ≤ℤ d
unfolding fabs
fabs_up (pos n) h = omega arith
fabs_up (negsuc n) h = omega arith

pub fabs_down :
    (d : ℤ) → d ≤ℤ pos 0 → pos_part (fabs d) + pos_part d ≤ neg_part d + neg_part (fabs d)
unfolding fabs
fabs_down (pos n) h = omega arith
fabs_down (negsuc n) h = omega arith

pub gap_up : (r d : ℤ) → pos 0 ≤ℤ r → r ≤ℤ d → gap r ≤ gap d
gap_up (pos n) d h k = omega arith
gap_up (negsuc n) d h k = omega arith

pub gap_down :
    (r d : ℤ) → pos 0 ≤ℤ r → pos_part r + pos_part d ≤ neg_part d + neg_part r → gap r ≤ gap d
gap_down (pos n) d h k = omega arith
gap_down (negsuc n) d h k = omega arith

pub not_leb : (a b : ℤ) → leb_ℤ a b ≡ false → b ≤ℤ a
not_leb a b h = ground arith
