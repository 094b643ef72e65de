-- ===== src/VirtualDevice/Touch.antt =====
-- client/packages/vita_virtual_device/src/virtual_touch.rs, and what it uses of the rstar crate.
-- A coordinate is an `i32` in the source. Every point that the program makes has coordinates from 0
-- to 65535 (constants of the touchpads, and the `u16`s of a report), so here it is a number.
use vita_oxi_pad.Base.{
  ℕ, zero, suc, ◌≡◌, ◌⊎◌, Bool, true, false, ◌&&◌, List, [], ◌∷◌, Option, none, some, Outcome,
  panics, returns, leb, min, max, All,
}
use vita_oxi_pad.Base.Int.{ℤ}
use vita_oxi_pad.VirtualDevice.Button.{Button, DpadDirection}

pub record Point : Type 0 where
  pub x : ℕ
  pub y : ℕ

abbrev pub point : ℕ → ℕ → Point
point x y = record { x = x; y = y }

-- `rstar::Point for Point`: `generate`, and `nth` and `nth_mut` with their `unreachable!()`.
unfoldable pub generate : (ℕ → ℕ) → Point
generate generator = record { x = generator 0; y = generator 1 }

unfoldable pub nth : Point → ℕ → Outcome ℕ
nth p zero = returns p.x
nth p (suc zero) = returns p.y
nth p (suc (suc n)) = panics

-- Writing `v` through the reference that `nth_mut` gives.
unfoldable pub set_nth : Point → ℕ → ℕ → Outcome Point
set_nth p zero v = returns (record p { x = v })
set_nth p (suc zero) v = returns (record p { y = v })
set_nth p (suc (suc n)) v = panics

pub data TouchAction : Type 0 where
  dpad : DpadDirection → TouchAction
  button : Button → TouchAction

-- `Rect` is rstar's `Rectangle<Point>`.
pub record TouchZone (Rect : Type 0) : Type 0 where
  pub rect : Rect
  pub action : Option TouchAction

-- The calls of rstar. `Tree` is `RTree<TouchZone>`.
pub record Rstar (Rect Tree : Type 0) : Type 0 where
  -- `AABB::from_corners(a, b).into()`
  pub from_corners : Point → Point → Rect
  -- `Rectangle::contains_point`, by which the tree decides what is at a point.
  pub contains_point : Rect → Point → Bool
  pub bulk_load : List (TouchZone Rect) → Tree
  pub locate_at_point : Tree → Point → Option (TouchZone Rect)

-- What the traits of a zone call of its rectangle; `Aabb` is `AABB<Point>`, and a distance is an
-- `i32`.
pub record Rectangle (Rect Aabb : Type 0) : Type 0 where
  pub envelope : Rect → Aabb
  pub distance_2 : Rect → Point → ℤ
  pub distance_2_if_less_or_equal : Rect → Point → ℤ → Option ℤ

module _ {Rect Aabb : Type 0} (rect : Rectangle Rect Aabb) where
  -- `RTreeObject::envelope for TouchZone`
  abbrev pub zone_envelope : TouchZone Rect → Aabb
  zone_envelope zone = rect.envelope zone.rect

  -- `PointDistance::distance_2 for TouchZone`
  abbrev pub zone_distance_2 : TouchZone Rect → Point → ℤ
  zone_distance_2 zone p = rect.distance_2 zone.rect p

  -- `PointDistance::distance_2_if_less_or_equal for TouchZone`
  abbrev pub zone_distance_2_if_less_or_equal : TouchZone Rect → Point → ℤ → Option ℤ
  zone_distance_2_if_less_or_equal zone p max_distance_2 =
      rect.distance_2_if_less_or_equal zone.rect p max_distance_2

module _ {Rect Tree : Type 0} (rs : Rstar Rect Tree) where
  -- `TouchZone::new`
  unfoldable pub new_zone : Point → Point → Option TouchAction → TouchZone Rect
  new_zone a b action = record { rect = rs.from_corners a b; action = action }

  -- `PointDistance::contains_point for TouchZone`
  unfoldable pub zone_contains_point : TouchZone Rect → Point → Bool
  zone_contains_point z p = rs.contains_point z.rect p

  -- The points of the rectangle with these corners, its edges included.
  abbrev pub between : Point → Point → Point → Bool
  between a b p =
      leb (min a.x b.x) p.x
      && leb p.x (max a.x b.x)
      && (leb (min a.y b.y) p.y && leb p.y (max a.y b.y))

  abbrev pub In : TouchZone Rect → List (TouchZone Rect) → Type 0
  In z [] = ⊥
  In z (y ∷ ys) = (z ≡ y) ⊎ In z ys

  -- What rstar documents: a box holds the points between its corners, edges included; the tree
  -- gives one of the elements that contain the point, and none only if no element does.
  pub record Documented : Type 0 where
    pub corners : (a b p : Point) → rs.contains_point (rs.from_corners a b) p ≡ between a b p
    pub located :
        (zs : List (TouchZone Rect)) (p : Point) (z : TouchZone Rect)
        → rs.locate_at_point (rs.bulk_load zs) p ≡ some z
        → In z zs × (zone_contains_point z p ≡ true)
    pub missed :
        (zs : List (TouchZone Rect)) (p : Point)
        → rs.locate_at_point (rs.bulk_load zs) p ≡ none
        → All (λ z. zone_contains_point z p ≡ false) zs
