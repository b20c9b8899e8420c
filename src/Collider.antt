-- ===== src/Collider.antt =====
-- SERVER/include/COMMON/Collider.h and SERVER/src/CHANNEL/util/Math.cpp: shapes in the plane and the
-- tests whether two of them meet. A coordinate is an integer number of some unit; on such numbers, as
-- long as their squares stay below 2^24, the `float` arithmetic of the source is exact. The arc, which
-- takes a square root and a cosine, is left out.
pub mod Squares
pub mod Overlap
pub mod Contact
pub mod FrontBox
mod Tests
use ll2games_rpg.Prelude.{ℕ, Bool, true, false, ◌&&◌, if◌then◌else◌}
use ll2games_rpg.Prelude.Int.{ℤ, pos, negsuc, pos_part, neg_part, ◌+ℤ◌, ◌-ℤ◌, ◌*ℤ◌, ltb_ℤ, leb_ℤ}

pub record Vec2 : Type 0 where
  pub x_pos : ℤ
  pub y_pos : ℤ

pub record Rect2D : Type 0 where
  pub offset : Vec2
  pub half_w : ℤ
  pub half_h : ℤ

pub record Circle2D : Type 0 where
  pub offset : Vec2
  pub radius : ℤ

-- Collider2D: the type, with the shape that the type makes the functions read.
pub data Collider2D : Type 0 where
  no_collider : Collider2D
  rect : Rect2D → Collider2D
  circle : Circle2D → Collider2D

-- std::fabs
pub fabs : ℤ → ℤ
fabs (pos n) = pos n
fabs (negsuc n) = pos (neg_part (negsuc n))

-- std::max and std::clamp
pub max_ℤ : ℤ → ℤ → ℤ
max_ℤ a b = if ltb_ℤ a b then b else a

pub clamp : ℤ → ℤ → ℤ → ℤ
clamp v lo hi = if ltb_ℤ v lo then lo else if ltb_ℤ hi v then hi else v

pub shift : Vec2 → Vec2 → Vec2
shift p offset = record { x_pos = p.x_pos +ℤ offset.x_pos; y_pos = p.y_pos +ℤ offset.y_pos }

pub get_collider_center : Vec2 → Collider2D → Vec2
get_collider_center p no_collider = p
get_collider_center p (rect r) = shift p r.offset
get_collider_center p (circle c) = shift p c.offset

pub distance_square : Vec2 → Vec2 → ℤ
distance_square a b =
    let dx = a.x_pos -ℤ b.x_pos in let dy = a.y_pos -ℤ b.y_pos in dx *ℤ dx +ℤ dy *ℤ dy

pub intersects_rect : Vec2 → Rect2D → Vec2 → Rect2D → Bool
intersects_rect p a q b =
    let ca = shift p a.offset in
    let cb = shift q b.offset in
    leb_ℤ (fabs (ca.x_pos -ℤ cb.x_pos)) (a.half_w +ℤ b.half_w)
    && leb_ℤ (fabs (ca.y_pos -ℤ cb.y_pos)) (a.half_h +ℤ b.half_h)

pub intersects_circle : Vec2 → Circle2D → Vec2 → Circle2D → Bool
intersects_circle p a q b =
    let r = a.radius +ℤ b.radius in
    leb_ℤ (distance_square (shift p a.offset) (shift q b.offset)) (r *ℤ r)

-- The point of a rectangle that is next to a point.
pub closest : Vec2 → Vec2 → Rect2D → Vec2
closest c m r = record {
  x_pos = clamp c.x_pos (m.x_pos -ℤ r.half_w) (m.x_pos +ℤ r.half_w);
  y_pos = clamp c.y_pos (m.y_pos -ℤ r.half_h) (m.y_pos +ℤ r.half_h);
}

pub intersects_rect_circle : Vec2 → Rect2D → Vec2 → Circle2D → Bool
intersects_rect_circle p r q c =
    let center = shift q c.offset in
    leb_ℤ (distance_square center (closest center (shift p r.offset) r)) (c.radius *ℤ c.radius)

pub intersects : Vec2 → Collider2D → Vec2 → Collider2D → Bool
intersects p no_collider q b = false
intersects p (rect a) q no_collider = false
intersects p (rect a) q (rect b) = intersects_rect p a q b
intersects p (rect a) q (circle b) = intersects_rect_circle p a q b
intersects p (circle a) q no_collider = false
intersects p (circle a) q (rect b) = intersects_rect_circle q b p a
intersects p (circle a) q (circle b) = intersects_circle p a q b

-- RectToRadiusFast and MakeContactRadius_Rect, with the squares that the callers compare.
pub rect_to_radius_fast : ℤ → ℤ → ℤ
rect_to_radius_fast half_w half_h = max_ℤ half_w half_h

pub make_contact_radius_rect : ℤ → ℤ → ℤ → ℤ → ℤ → ℤ
make_contact_radius_rect p_half_w p_half_h m_half_w m_half_h extra =
    rect_to_radius_fast p_half_w p_half_h +ℤ rect_to_radius_fast m_half_w m_half_h +ℤ extra

pub make_contact_radius_sq_rect : ℤ → ℤ → ℤ → ℤ → ℤ → ℤ
make_contact_radius_sq_rect p_half_w p_half_h m_half_w m_half_h extra =
    let r = make_contact_radius_rect p_half_w p_half_h m_half_w m_half_h extra in r *ℤ r

-- MakeBoxAttackCollider, for the half of the skill's range, which the source computes, its `half_height`
-- and whether its shape is HitShape::BOX; `attack_dir` is -1 or 1.
pub make_box_attack_collider : Bool → ℤ → ℤ → ℤ → Collider2D
make_box_attack_collider box half_range half_height attack_dir =
    if box
    then rect (record {
      offset = record { x_pos = attack_dir *ℤ half_range; y_pos = pos 0 };
      half_w = half_range;
      half_h = half_height;
    })
    else no_collider

-- IsHitFrontBox2D; `facing` is -1 or 1.
pub is_hit_front_box : Vec2 → ℤ → Vec2 → ℤ → ℤ → Bool
is_hit_front_box attacker facing target range tolerance =
    let dy = target.y_pos -ℤ attacker.y_pos in
    let front = (target.x_pos -ℤ attacker.x_pos) *ℤ facing in
    if ltb_ℤ tolerance (fabs dy)
    then false
    else if ltb_ℤ front (pos 0)
    then false
    else if ltb_ℤ range front
    then false
    else true
