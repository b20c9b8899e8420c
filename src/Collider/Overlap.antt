-- ===== src/Collider/Overlap.antt =====
-- What `Intersects` decides, in terms of the points that two shapes cover.
use ll2games_rpg.Prelude.{◌≡◌, ap₂, Bool, true, ◌&&◌, ◌↔◌, arith}
use ll2games_rpg.Prelude.Int.{ℤ, pos, ◌+ℤ◌, ◌-ℤ◌, ◌*ℤ◌, ◌≤ℤ◌, leb_ℤ, int_laws}
use ll2games_rpg.Collider.{
  Vec2, Rect2D, Circle2D, Collider2D, no_collider, rect, circle, fabs, max_ℤ, shift,
  distance_square, closest, intersects_rect, intersects_rect_circle, intersects,
}
use ll2games_rpg.Collider.Squares.{
  distance_mono, fabs_le, le_fabs, max_bounds, max_least, leb_ℤ-le, le-leb_ℤ, clamp_nearest,
  clamp_within,
}

abbrev pub Within : ℤ → ℤ → ℤ → Type 0
Within center half x = (center -ℤ half ≤ℤ x) × (x ≤ℤ center +ℤ half)

-- The points that a shape covers, when its owner stands at a position.
abbrev pub Covers : Vec2 → Collider2D → Vec2 → Type 0
Covers p no_collider x = ⊥
Covers p (rect r) x =
    Within (shift p r.offset).x_pos r.half_w x.x_pos
    × Within (shift p r.offset).y_pos r.half_h x.y_pos
Covers p (circle c) x = distance_square (shift p c.offset) x ≤ℤ c.radius *ℤ c.radius

-- No negative size.
abbrev pub IsSized : Collider2D → Type 0
IsSized no_collider = Unit
IsSized (rect r) = (pos 0 ≤ℤ r.half_w) × (pos 0 ≤ℤ r.half_h)
IsSized (circle c) = pos 0 ≤ℤ c.radius

abbrev pub Meet : Vec2 → Collider2D → Vec2 → Collider2D → Type 0
Meet p a q b = (x : Vec2) × Covers p a x × Covers q b x

abbrev pub IsCircle : Collider2D → Type 0
IsCircle no_collider = ⊥
IsCircle (rect r) = ⊥
IsCircle (circle c) = Unit

-- One axis of two rectangles.
spans_meet :
    (a b u v : ℤ)
    → pos 0 ≤ℤ u
    → pos 0 ≤ℤ v
    → leb_ℤ (fabs (a -ℤ b)) (u +ℤ v) ≡ true
    → Within a u (max_ℤ (a -ℤ u) (b -ℤ v)) × Within b v (max_ℤ (a -ℤ u) (b -ℤ v))
spans_meet a b u v h k e =
    let near = fabs_le (a -ℤ b) (u +ℤ v) e in
    let above = max_bounds (a -ℤ u) (b -ℤ v) in
    (
      (above.0, max_least (a -ℤ u) (b -ℤ v) (a +ℤ u) (omega int_laws) (omega int_laws)),
      (above.1, max_least (a -ℤ u) (b -ℤ v) (b +ℤ v) (omega int_laws) (omega int_laws)),
    )

spans_near : (a b u v x : ℤ) → Within a u x → Within b v x → leb_ℤ (fabs (a -ℤ b)) (u +ℤ v) ≡ true
spans_near a b u v x h k = le_fabs (a -ℤ b) (u +ℤ v) (omega int_laws) (omega int_laws)

pub and_true : (a b : Bool) → (a && b) ≡ true → (a ≡ true) × (b ≡ true)
and_true a b h = (ground arith, ground arith)

rects-Meet :
    (p : Vec2) (a : Rect2D) (q : Vec2) (b : Rect2D)
    → IsSized (rect a)
    → IsSized (rect b)
    → (intersects_rect p a q b ≡ true) ↔ Meet p (rect a) q (rect b)
unfolding intersects_rect
rects-Meet p a q b sa sb = (there, back)
  where
    there : intersects_rect p a q b ≡ true → Meet p (rect a) q (rect b)
    there h =
        let both = and_true _ _ h in
        let xs = spans_meet _ _ _ _ sa.0 sb.0 both.0 in
        let ys = spans_meet _ _ _ _ sa.1 sb.1 both.1 in
        (record { x_pos = _; y_pos = _ }, (xs.0, ys.0), (xs.1, ys.1))

    back : Meet p (rect a) q (rect b) → intersects_rect p a q b ≡ true
    back (x, m, n) = ap₂ ◌&&◌ (spans_near _ _ _ _ _ m.0 n.0) (spans_near _ _ _ _ _ m.1 n.1)

nearest_meets :
    (w : ℤ) (x c m : Vec2) (r : Rect2D)
    → Within m.x_pos r.half_w x.x_pos × Within m.y_pos r.half_h x.y_pos
    → distance_square c x ≤ℤ w
    → distance_square c (closest c m r) ≤ℤ w
unfolding closest
nearest_meets w x c m r h near =
    let nearer =
      distance_mono c (closest c m r) x (clamp_nearest _ _ _ x.x_pos h.0.0 h.0.1)
        (clamp_nearest _ _ _ x.y_pos h.1.0 h.1.1) in
    omega arith

rect_meets_circle :
    (p : Vec2) (r : Rect2D) (q : Vec2) (c : Circle2D)
    → IsSized (rect r)
    → (intersects_rect_circle p r q c ≡ true) ↔ Meet p (rect r) q (circle c)
unfolding intersects_rect_circle closest
rect_meets_circle p r q c s = (there, back)
  where
    there : intersects_rect_circle p r q c ≡ true → Meet p (rect r) q (circle c)
    there h = (
      closest (shift q c.offset) (shift p r.offset) r,
      (clamp_within _ _ _ (omega int_laws), clamp_within _ _ _ (omega int_laws)),
      leb_ℤ-le (distance_square (shift q c.offset) _) (c.radius *ℤ c.radius) h,
    )

    back : Meet p (rect r) q (circle c) → intersects_rect_circle p r q c ≡ true
    back (x, m, n) =
        le-leb_ℤ (distance_square (shift q c.offset) _) (c.radius *ℤ c.radius)
          (nearest_meets _ x (shift q c.offset) (shift p r.offset) r m n)

-- `Intersects` is true exactly when some point is covered by both shapes, each where its owner stands:
-- for shapes of no negative size of which one at most is a circle.
pub intersects_exact :
    (p : Vec2) (a : Collider2D) (q : Vec2) (b : Collider2D)
    → IsSized a
    → IsSized b
    → ¬ (IsCircle a × IsCircle b)
    → (intersects p a q b ≡ true) ↔ Meet p a q b
unfolding intersects
intersects_exact p no_collider q b sa sb one = (λ h. cc, λ m. absurd m.1)
intersects_exact p (rect a) q no_collider sa sb one = (λ h. cc, λ m. absurd m.2)
intersects_exact p (rect a) q (rect b) sa sb one = rects-Meet p a q b sa sb
intersects_exact p (rect a) q (circle b) sa sb one = rect_meets_circle p a q b sa
intersects_exact p (circle a) q no_collider sa sb one = (λ h. cc, λ m. absurd m.2)
intersects_exact p (circle a) q (rect b) sa sb one =
    let found = rect_meets_circle q b p a sb in
    (λ h. (let m = found.0 h in (m.0, m.2, m.1)), λ m. found.1 (m.0, m.2, m.1))
intersects_exact p (circle a) q (circle b) sa sb one = absurd (one (tt, tt))
