-- ===== src/Collider/FrontBox.antt =====
-- The two tests for a target in front of an attacker: the collider of a box attack, and IsHitFrontBox2D.
use ll2games_rpg.Prelude.{
  ◌≡◌, refl, sym, ◌∙◌, ap₂, ◌⊎◌, inl, inr, Bool, true, false, not, ◌&&◌, if◌then◌else◌, arith,
}
use ll2games_rpg.Prelude.Int.{ℤ, pos, negsuc, ◌+ℤ◌, ◌-ℤ◌, ◌*ℤ◌, ltb_ℤ, leb_ℤ, +ℤ_parts, -ℤ_parts}
use ll2games_rpg.Collider.{
  Vec2, Rect2D, rect, fabs, shift, intersects_rect, intersects, make_box_attack_collider,
  is_hit_front_box,
}

-- A target without extent.
abbrev pub point : Rect2D
point = record { offset = record { x_pos = pos 0; y_pos = pos 0 }; half_w = pos 0; half_h = pos 0 }

within : (d w : ℤ) → leb_ℤ (fabs d) w ≡ (leb_ℤ d w && leb_ℤ (pos 0 -ℤ d) w)
unfolding fabs ◌-ℤ◌
within (pos n) w = ground arith
within (negsuc n) w = ground arith

-- Before the attacker's back edge, or beyond its range, for the distance to the front.
abbrev in_front : ℤ → ℤ → Bool
in_front front range =
    if ltb_ℤ front (pos 0) then false else if ltb_ℤ range front then false else true

across_right :
    (a t half : ℤ)
    → leb_ℤ (fabs ((a +ℤ half) -ℤ (t +ℤ pos 0))) (half +ℤ pos 0) ≡ in_front (t -ℤ a) (half +ℤ half)
across_right a t half =
    let d = (a +ℤ half) -ℤ (t +ℤ pos 0) in
    within d (half +ℤ pos 0)
    ∙ ground (
      arith,
      +ℤ_parts a half,
      +ℤ_parts t (pos 0),
      -ℤ_parts (a +ℤ half) (t +ℤ pos 0),
      -ℤ_parts (pos 0) d,
      -ℤ_parts t a,
      +ℤ_parts half half,
      +ℤ_parts half (pos 0),
    )

across_left :
    (a t half : ℤ)
    → leb_ℤ (fabs ((a +ℤ (pos 0 -ℤ half)) -ℤ (t +ℤ pos 0))) (half +ℤ pos 0)
      ≡ in_front (pos 0 -ℤ (t -ℤ a)) (half +ℤ half)
across_left a t half =
    let d = (a +ℤ (pos 0 -ℤ half)) -ℤ (t +ℤ pos 0) in
    within d (half +ℤ pos 0)
    ∙ ground (
      arith,
      -ℤ_parts (pos 0) half,
      +ℤ_parts a (pos 0 -ℤ half),
      +ℤ_parts t (pos 0),
      -ℤ_parts (a +ℤ (pos 0 -ℤ half)) (t +ℤ pos 0),
      -ℤ_parts (pos 0) d,
      -ℤ_parts t a,
      -ℤ_parts (pos 0) (t -ℤ a),
      +ℤ_parts half half,
      +ℤ_parts half (pos 0),
    )

along :
    (a t h : ℤ)
    → leb_ℤ (fabs ((a +ℤ pos 0) -ℤ (t +ℤ pos 0))) (h +ℤ pos 0) ≡ not (ltb_ℤ h (fabs (t -ℤ a)))
along a t h =
    let d = (a +ℤ pos 0) -ℤ (t +ℤ pos 0) in
    within d (h +ℤ pos 0)
    ∙ sym (
        ground (
          arith,
          within (t -ℤ a) h,
          +ℤ_parts a (pos 0),
          +ℤ_parts t (pos 0),
          -ℤ_parts (a +ℤ pos 0) (t +ℤ pos 0),
          -ℤ_parts (pos 0) d,
          -ℤ_parts t a,
          -ℤ_parts (pos 0) (t -ℤ a),
          +ℤ_parts h (pos 0),
        ))

times_one : (d : ℤ) → (pos 1 *ℤ d ≡ d) × (d *ℤ pos 1 ≡ d)
unfolding ◌*ℤ◌
times_one (pos n) = (grind arith, grind arith)
times_one (negsuc n) = (grind arith, grind arith)

times_minus_one : (d : ℤ) → (negsuc 0 *ℤ d ≡ pos 0 -ℤ d) × (d *ℤ negsuc 0 ≡ pos 0 -ℤ d)
unfolding ◌*ℤ◌ ◌-ℤ◌
times_minus_one (pos n) = (grind arith, grind arith)
times_minus_one (negsuc n) = (grind arith, grind arith)

both : (x y : Bool) → (x && not y) ≡ (if y then false else x)
both true true = refl
both true false = refl
both false true = refl
both false false = refl

-- A box attack, to the left or to the right, meets a target without extent exactly when IsHitFrontBox2D
-- holds for the range of the attack and, as its tolerance, half the height of the box.
pub box_attack_front_box :
    (attacker target : Vec2) (half_range half_height attack_dir : ℤ)
    → (attack_dir ≡ pos 1) ⊎ (attack_dir ≡ negsuc 0)
    → intersects attacker
        (make_box_attack_collider true half_range half_height attack_dir)
        target
        (rect point)
      ≡ is_hit_front_box attacker attack_dir target (half_range +ℤ half_range) half_height
unfolding make_box_attack_collider intersects intersects_rect shift is_hit_front_box
box_attack_front_box p q half h dir (inl right) =
    rw (right, (times_one half).0, (times_one (q.x_pos -ℤ p.x_pos)).1)
      (ap₂ ◌&&◌ (across_right p.x_pos q.x_pos half) (along p.y_pos q.y_pos h) ∙ both _ _)
box_attack_front_box p q half h dir (inr left) =
    rw (left, (times_minus_one half).0, (times_minus_one (q.x_pos -ℤ p.x_pos)).1)
      (ap₂ ◌&&◌ (across_left p.x_pos q.x_pos half) (along p.y_pos q.y_pos h) ∙ both _ _)
