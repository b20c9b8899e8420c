-- ===== src/Collider/Tests.antt =====
-- Runs at concrete shapes: the player of Player.cpp and the mushroom of data/Monsters/100102.json.
use ll2games_rpg.Prelude.{◌≡◌, refl, true, false, ◌↔◌, inr, arith}
use ll2games_rpg.Prelude.Int.{ℤ, pos, negsuc, ◌≤ℤ◌, ◌+ℤ◌, ◌-ℤ◌, ◌*ℤ◌}
use ll2games_rpg.Collider.{
  Vec2, Rect2D, Circle2D, rect, circle, intersects, intersects_rect, intersects_rect_circle,
  closest, clamp, fabs, shift, distance_square, is_hit_front_box, make_box_attack_collider,
}
use ll2games_rpg.Collider.Overlap.{Meet, intersects_exact}
use ll2games_rpg.Collider.FrontBox.{point, box_attack_front_box}
use ll2games_rpg.Collider.Contact.{in_contact, reach_square, in_contact_exact}

abbrev at : ℤ → ℤ → Vec2
at x y = record { x_pos = x; y_pos = y }

abbrev player : Rect2D
player = record { offset = at (pos 0) (pos 2); half_w = pos 12; half_h = pos 14 }

abbrev mushroom : Rect2D
mushroom = record { offset = at (pos 0) (pos 28); half_w = pos 30; half_h = pos 30 }

abbrev ball : Circle2D
ball = record { offset = at (pos 0) (pos 0); radius = pos 5 }

touching :
    intersects (at (pos 42) (pos 0)) (rect player) (at (pos 0) (pos 0)) (rect mushroom) ≡ true
unfolding intersects intersects_rect shift fabs ◌+ℤ◌ ◌-ℤ◌
touching = refl

touching_hidden :
    in_contact (pos 1000) (at (pos 42) (pos 0)) (rect player) (at (pos 0) (pos 0)) (rect mushroom)
    ≡ false
unfolding in_contact distance_square intersects intersects_rect shift fabs ◌+ℤ◌ ◌-ℤ◌ ◌*ℤ◌
touching_hidden = refl

ball_misses :
    intersects (at (pos 0) (pos 0)) (circle ball) (at (pos 16) (pos 20)) (rect player) ≡ false
unfolding intersects intersects_rect_circle closest clamp distance_square shift ◌+ℤ◌ ◌-ℤ◌ ◌*ℤ◌
ball_misses = refl

hit_in_front :
    is_hit_front_box (at (pos 3) (pos 0)) (pos 1) (at (pos 9) (pos 1)) (pos 6) (pos 1) ≡ true
unfolding is_hit_front_box fabs ◌-ℤ◌ ◌*ℤ◌
hit_in_front = refl

intersects_exact_example :
    (intersects (at (pos 0) (pos 0)) (circle ball) (at (pos 16) (pos 20)) (rect player) ≡ true)
    ↔ Meet (at (pos 0) (pos 0)) (circle ball) (at (pos 16) (pos 20)) (rect player)
intersects_exact_example =
    intersects_exact (at (pos 0) (pos 0)) (circle ball) (at (pos 16) (pos 20)) (rect player)
      (omega arith) (omega arith) (λ both. both.1)

in_contact_exact_example :
    ((p q : Vec2)
      → in_contact (pos 1000) p (rect player) q (rect mushroom)
        ≡ intersects p (rect player) q (rect mushroom))
    ↔ (reach_square player mushroom ≤ℤ pos 1000)
in_contact_exact_example = in_contact_exact (pos 1000) player mushroom (omega arith) (omega arith)

-- A target at the left, just in the range of 120.
box_attack_front_box_example :
    intersects
      (at (pos 200) (pos 0))
      (make_box_attack_collider true (pos 60) (pos 60) (negsuc 0))
      (at (pos 80) (pos 30))
      (rect point)
    ≡ is_hit_front_box
        (at (pos 200) (pos 0))
        (negsuc 0)
        (at (pos 80) (pos 30))
        (pos 60 +ℤ pos 60)
        (pos 60)
box_attack_front_box_example =
    box_attack_front_box (at (pos 200) (pos 0)) (at (pos 80) (pos 30)) (pos 60) (pos 60) (negsuc 0)
      (inr refl)
