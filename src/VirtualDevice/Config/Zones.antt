-- ===== src/VirtualDevice/Config/Zones.antt =====
-- Which zone a point of the pad is in, whatever the tree chooses where two zones meet.
use vita_oxi_pad.Base.{
  ◌/◌, ◌≤◌, ◌≡◌, ◌⊎◌, inl, inr, refl, true, false, List, [], ◌∷◌, Option, none, some, arith, All,
  All-map, Option-cases,
}
use vita_oxi_pad.Reports.{TouchReport}
use vita_oxi_pad.VirtualDevice.Button.{Button}
use vita_oxi_pad.VirtualDevice.Touch.{
  Point, point, TouchAction, button, TouchZone, Rstar, zone_contains_point, In, Documented,
}
use vita_oxi_pad.VirtualDevice.Config.{halves, quarters, action_at, push_actions}

-- A report on the pad with this far corner, its edges included.
abbrev pub OnPad : Point → TouchReport → Type 0
OnPad hi t = (t.x ≤ hi.x) × (t.y ≤ hi.y)

-- The action is one of two buttons: the left one only up to the middle line, the right one only from
-- it on.
abbrev pub InHalf : Point → (left right : Button) → TouchReport → Option TouchAction → Type 0
InHalf hi left right t a =
    ((t.x ≤ hi.x / 2) × (a ≡ some (button left))) ⊎ ((hi.x / 2 ≤ t.x) × (a ≡ some (button right)))

-- The same for the four quarters: the action is the button of a quarter that the point is in, edges
-- included.
abbrev pub InQuarter : Point → (tl tr bl br : Button) → TouchReport → Option TouchAction → Type 0
InQuarter hi tl tr bl br t a =
    ((t.x ≤ hi.x / 2) × (t.y ≤ hi.y / 2) × (a ≡ some (button tl)))
    ⊎ ((hi.x / 2 ≤ t.x) × (t.y ≤ hi.y / 2) × (a ≡ some (button tr)))
    ⊎ ((t.x ≤ hi.x / 2) × (hi.y / 2 ≤ t.y) × (a ≡ some (button bl)))
    ⊎ ((hi.x / 2 ≤ t.x) × (hi.y / 2 ≤ t.y) × (a ≡ some (button br)))

-- Two lists of one length whose elements are related pairwise.
abbrev pub Each :
    (TouchReport → Option TouchAction → Type 0) → List TouchReport → List TouchAction → Type 0
Each P [] [] = Unit {0}
Each P [] (a ∷ as') = ⊥
Each P (t ∷ ts) [] = ⊥
Each P (t ∷ ts) (a ∷ as') = P t (some a) × Each P ts as'

module _ {Rect Tree : Type 0} (rs : Rstar Rect Tree) (d : Documented rs) where
  -- One of the zones that contain a report's point decides its action, if one contains it.
  action_of_zone :
      (zs : List (TouchZone Rect)) (t : TouchReport)
      → (All (λ z. zone_contains_point rs z (point t.x t.y) ≡ false) zs)
        ⊎ ((z : TouchZone Rect) × In rs z zs
            × (zone_contains_point rs z (point t.x t.y) ≡ true)
            × (action_at rs (rs.bulk_load zs) t ≡ z.action))
  unfolding action_at
  action_of_zone zs t = elim (Option-cases (rs.locate_at_point (rs.bulk_load zs) (point t.x t.y))) [
    | inl e ↦ inl (d.missed zs (point t.x t.y) e)
    | inr (z, e) ↦
        let found = d.located zs (point t.x t.y) z e in
        inr (z, found.0, found.1, rw (e, action_at) refl)
  ]

  -- On a pad that begins at the origin, each half gives its button.
  halves_action :
      (hi : Point) (left right : Button) (t : TouchReport)
      → OnPad hi t
      → InHalf hi left right t
          (action_at rs (rs.bulk_load (halves rs (point 0 0, hi) left right)) t)
  unfolding halves zone_contains_point
  halves_action hi left right t (hx, hy) = ground (
    arith,
    d.corners (point 0 0) (point (hi.x / 2) hi.y) (point t.x t.y),
    d.corners (point (hi.x / 2) 0) hi (point t.x t.y),
    action_of_zone (halves rs (point 0 0, hi) left right) t,
  )

  -- On a pad that begins at the origin, each quarter gives its button.
  quarters_action :
      (hi : Point) (tl tr bl br : Button) (t : TouchReport)
      → OnPad hi t
      → InQuarter hi tl tr bl br t
          (action_at rs (rs.bulk_load (quarters rs (point 0 0, hi) tl tr bl br)) t)
  unfolding quarters zone_contains_point
  quarters_action hi tl tr bl br t (hx, hy) = ground (
    arith,
    d.corners (point 0 0) (point (hi.x / 2) (hi.y / 2)) (point t.x t.y),
    d.corners (point (hi.x / 2) 0) (point hi.x (hi.y / 2)) (point t.x t.y),
    d.corners (point 0 (hi.y / 2)) (point (hi.x / 2) hi.y) (point t.x t.y),
    d.corners (point (hi.x / 2) (hi.y / 2)) hi (point t.x t.y),
    action_of_zone (quarters rs (point 0 0, hi) tl tr bl br) t,
  )

module _ {Rect Tree : Type 0} (rs : Rstar Rect Tree) where
  push_actions_step :
      (P : TouchReport → Option TouchAction → Type 0) (tree : Tree) (t : TouchReport)
      (ts : List TouchReport) (o : Option TouchAction)
      → (P t none → ⊥)
      → action_at rs tree t ≡ o
      → P t o
      → Each P ts (push_actions rs tree ts)
      → Each P (t ∷ ts) (push_actions rs tree (t ∷ ts))
  unfolding push_actions
  push_actions_step P tree t ts none never e h rest = absurd (never h)
  push_actions_step P tree t ts (some a) never e h rest = rw (e, push_actions) (h, rest)

  -- Where every report of a list has an action with a property, the loop lists those actions in
  -- the order of the reports.
  pub push_actions-Each :
      (P : TouchReport → Option TouchAction → Type 0) (tree : Tree)
      → ((t : TouchReport) → P t none → ⊥)
      → (ts : List TouchReport) → All (λ t. P t (action_at rs tree t)) ts
      → Each P ts (push_actions rs tree ts)
  push_actions-Each P tree never [] h = unfold push_actions in tt
  push_actions-Each P tree never (t ∷ ts) h =
      push_actions_step P tree t ts (action_at rs tree t) (never t) refl h.0
        (push_actions-Each P tree never ts h.1)

module _ {Rect Tree : Type 0} (rs : Rstar Rect Tree) (d : Documented rs) where
  pub halves_actions :
      (hi : Point) (left right : Button) (ts : List TouchReport)
      → All (OnPad hi) ts
      → Each
          (InHalf hi left right)
          ts
          (push_actions rs (rs.bulk_load (halves rs (point 0 0, hi) left right)) ts)
  halves_actions hi left right ts h =
      push_actions-Each rs (InHalf hi left right) _ (λ t p. ground arith) ts
        (All-map ts (λ t. halves_action rs d hi left right t) h)

  pub quarters_actions :
      (hi : Point) (tl tr bl br : Button) (ts : List TouchReport)
      → All (OnPad hi) ts
      → Each
          (InQuarter hi tl tr bl br)
          ts
          (push_actions rs (rs.bulk_load (quarters rs (point 0 0, hi) tl tr bl br)) ts)
  quarters_actions hi tl tr bl br ts h =
      push_actions-Each rs (InQuarter hi tl tr bl br) _ (λ t p. ground arith) ts
        (All-map ts (λ t. quarters_action rs d hi tl tr bl br t) h)
