-- ===== src/Collider/Contact.antt =====
-- The two tests of MapInstance::ProcessContactDamage on a player and a monster, the distance cut of
-- `m_contactCheckRadiusSq` and `Intersects` behind it, in SERVER/src/CHANNEL/map/MapInstance.cpp.
use ll2games_rpg.Prelude.{
  ◌≤◌, ◌≡◌, ap, ap₂, Bool, true, false, ◌&&◌, ◌↔◌, inl, inr, arith, Bool-cases, if◌then◌else◌,
  if_cases, ◌∙◌, sym, refl,
}
use ll2games_rpg.Prelude.Int.{ℤ, pos, ◌+ℤ◌, ◌-ℤ◌, ◌*ℤ◌, ◌≤ℤ◌, leb_ℤ, int_laws, eq_parts}
use ll2games_rpg.Collider.{
  Vec2, Rect2D, Collider2D, rect, fabs, shift, distance_square, intersects_rect, intersects,
}
use ll2games_rpg.Collider.Squares.{
  gap, mul_self, square_mono, fabs_le, le_fabs, leb_ℤ-le, le-leb_ℤ, distance_square_gaps,
  fabs_bounds, gap_le, fabs_up, fabs_down, gap_up, gap_down, not_leb,
}
use ll2games_rpg.Collider.Overlap.{IsSized, and_true}

unfoldable pub in_contact : ℤ → Vec2 → Collider2D → Vec2 → Collider2D → Bool
in_contact cut p a q b = leb_ℤ (distance_square p q) cut && intersects p a q b

-- How far apart along one axis the owners of two boxes can be that meet, for the offsets and the sum
-- of the half sizes, and a place at that distance from 0.
pub reach : ℤ → ℤ → ℤ → ℤ
reach u v w = fabs (u -ℤ v) +ℤ w

far : ℤ → ℤ → ℤ → ℤ
far u v w = if leb_ℤ v u then pos 0 -ℤ reach u v w else reach u v w

and_false : (t : Bool) → (t && false) ≡ false
and_false true = refl
and_false false = refl

reach_bounds :
    (p q u v w : ℤ)
    → leb_ℤ (fabs ((p +ℤ u) -ℤ (q +ℤ v))) w ≡ true
    → gap (p -ℤ q) ≤ gap (reach u v w)
unfolding reach
reach_bounds p q u v w e =
    let near = fabs_le _ w e in
    let apart = fabs_bounds (u -ℤ v) in
    gap_le (p -ℤ q) (fabs (u -ℤ v) +ℤ w) (omega int_laws) (omega int_laws)

far_meets :
    (u v w : ℤ)
    → pos 0 ≤ℤ w
    → (leb_ℤ (fabs ((far u v w +ℤ u) -ℤ (pos 0 +ℤ v))) w ≡ true)
      × (gap (reach u v w) ≤ gap (far u v w -ℤ pos 0))
unfolding far reach
far_meets u v w h =
    if_cases
      (λ f.
        (leb_ℤ (fabs ((f +ℤ u) -ℤ (pos 0 +ℤ v))) w ≡ true) × (gap (reach u v w) ≤ gap (f -ℤ pos 0)))
      (leb_ℤ v u)
      (λ right.
        let after = leb_ℤ-le v u right in
        let size = fabs_up (u -ℤ v) (omega int_laws) in
        let bounds = fabs_bounds (u -ℤ v) in
        (
          le_fabs _ w (omega int_laws) (omega int_laws),
          gap_down (reach u v w) (pos 0 -ℤ reach u v w -ℤ pos 0) (omega int_laws) (omega int_laws),
        ))
      (λ left.
        let before = not_leb v u left in
        let size = fabs_down (u -ℤ v) (omega int_laws) in
        let bounds = fabs_bounds (u -ℤ v) in
        (
          le_fabs _ w (omega int_laws) (omega int_laws),
          gap_up (reach u v w) (reach u v w -ℤ pos 0) (omega int_laws) (omega int_laws),
        ))

-- The squared distance of the owners of two boxes that only touch, at the corners furthest off.
pub reach_square : Rect2D → Rect2D → ℤ
reach_square a b =
    let x = reach a.offset.x_pos b.offset.x_pos (a.half_w +ℤ b.half_w) in
    let y = reach a.offset.y_pos b.offset.y_pos (a.half_h +ℤ b.half_h) in x *ℤ x +ℤ y *ℤ y

boxes_near :
    (p q : Vec2) (a b : Rect2D)
    → intersects_rect p a q b ≡ true
    → distance_square p q ≤ℤ reach_square a b
unfolding intersects_rect shift reach_square
boxes_near p q a b e =
    let both = and_true _ _ e in
    let x = reach a.offset.x_pos b.offset.x_pos (a.half_w +ℤ b.half_w) in
    let y = reach a.offset.y_pos b.offset.y_pos (a.half_h +ℤ b.half_h) in
    let across = square_mono _ _ (reach_bounds p.x_pos q.x_pos _ _ _ both.0) in
    let along = square_mono _ _ (reach_bounds p.y_pos q.y_pos _ _ _ both.1) in
    let d = eq_parts (distance_square_gaps p q) in
    let xx = eq_parts (mul_self x) in let yy = eq_parts (mul_self y) in omega int_laws

abbrev corner : Rect2D → Rect2D → Vec2
corner a b = record {
  x_pos = far a.offset.x_pos b.offset.x_pos (a.half_w +ℤ b.half_w);
  y_pos = far a.offset.y_pos b.offset.y_pos (a.half_h +ℤ b.half_h);
}

abbrev origin : Vec2
origin = record { x_pos = pos 0; y_pos = pos 0 }

corner_meets :
    (a b : Rect2D)
    → IsSized (rect a)
    → IsSized (rect b)
    → (intersects_rect (corner a b) a origin b ≡ true)
      × (reach_square a b ≤ℤ distance_square (corner a b) origin)
unfolding intersects_rect shift reach_square
corner_meets a b sa sb =
    let across = far_meets a.offset.x_pos b.offset.x_pos (a.half_w +ℤ b.half_w) (omega int_laws) in
    let along = far_meets a.offset.y_pos b.offset.y_pos (a.half_h +ℤ b.half_h) (omega int_laws) in
    let xs = square_mono _ _ across.1 in
    let ys = square_mono _ _ along.1 in
    let d = eq_parts (distance_square_gaps (corner a b) origin) in
    let xx = eq_parts (mul_self (reach a.offset.x_pos b.offset.x_pos (a.half_w +ℤ b.half_w))) in
    let yy = eq_parts (mul_self (reach a.offset.y_pos b.offset.y_pos (a.half_h +ℤ b.half_h))) in
    (ap₂ ◌&&◌ across.0 along.0, omega int_laws)

-- The cut by distance never hides a contact of two rectangles, wherever their owners stand, exactly
-- when it is at least the squared distance of the owners when the rectangles touch at the corners
-- that are furthest off.
pub in_contact_exact :
    (cut : ℤ) (a b : Rect2D)
    → IsSized (rect a)
    → IsSized (rect b)
    → ((p q : Vec2) → in_contact cut p (rect a) q (rect b) ≡ intersects p (rect a) q (rect b))
      ↔ (reach_square a b ≤ℤ cut)
unfolding in_contact intersects
in_contact_exact cut a b sa sb = (there, back)
  where
    there :
        ((p q : Vec2) → in_contact cut p (rect a) q (rect b) ≡ intersects p (rect a) q (rect b))
        → reach_square a b ≤ℤ cut
    there same =
        let far_off = corner_meets a b sa sb in
        let met = same (corner a b) origin ∙ far_off.0 in
        let near = leb_ℤ-le (distance_square (corner a b) origin) cut (and_true _ _ met).0 in
        omega arith

    back :
        reach_square a b ≤ℤ cut
        → (p q : Vec2) → in_contact cut p (rect a) q (rect b) ≡ intersects p (rect a) q (rect b)
    back fits p q = elim (Bool-cases (intersects_rect p a q b)) [
      | inl met ↦
          let near = boxes_near p q a b met in
          ap (λ t. t && intersects_rect p a q b) (le-leb_ℤ (distance_square p q) cut (omega arith))
      | inr apart ↦ ap (◌&&◌ (leb_ℤ (distance_square p q) cut)) apart ∙ and_false _ ∙ sym apart
    ]
