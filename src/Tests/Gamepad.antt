-- ===== src/Tests/Gamepad.antt =====
-- Reports sent to the Linux device. A set of buttons is gone through in the buttons' order, a float
-- is left as it is, and a tree is the list of its zones.
use vita_oxi_pad.Base.{
  ◌≡◌, refl, sym, subst, ap, Bool, true, false, ◌&&◌, ◌||◌, List, [], ◌∷◌, Option, none, some,
  arith, leb, ltb, min, max, if◌then◌else◌, Bool-cases, inl, inr, All,
}
use vita_oxi_pad.Base.Int.{pos, negsuc}
use vita_oxi_pad.Reports.{TouchReport}
use vita_oxi_pad.VirtualDevice.Button.{
  Button, ButtonSet, Iteration, count, eq_button, eq_button_iff,
}
use vita_oxi_pad.VirtualDevice.Utils.{
  trigger, get_pressed_buttons, compute_dpad_direction, dpad_direction_to_axis_values,
}
use vita_oxi_pad.VirtualDevice.Utils.Laws.{physical, axis, count-get_pressed_buttons, dpad_axes}
use vita_oxi_pad.VirtualDevice.Touch.{
  Point, point, TouchZone, Rstar, Documented, zone_contains_point, In,
}
use vita_oxi_pad.VirtualDevice.Config.{
  rear_rl2_front_rl3, front_top_rl2_bottom_rl3_rear_touchpad,
  rear_top_rl2_bottom_rl3_front_touchpad, process_touch_reports,
}
use vita_oxi_pad.VirtualDevice.Config.Zones.{OnPad, InHalf, InQuarter, Each}
use vita_oxi_pad.VirtualDevice.Config.Laws.{rear_rl2_front_rl3_touches, touchpad_touches}
use vita_oxi_pad.VirtualDevice.Floats.{Floats}
use vita_oxi_pad.Tests.Wire.{a_report}

abbrev pub all_buttons : List Button
all_buttons =
    Button.thumb_right ∷ Button.thumb_left ∷ Button.options ∷ Button.share ∷ Button.trigger_right
    ∷ Button.trigger_left ∷ Button.shoulder_right ∷ Button.shoulder_left ∷ Button.triangle
    ∷ Button.circle ∷ Button.cross ∷ Button.square ∷ Button.ps_button ∷ []

abbrev pub filter : ButtonSet → List Button → List Button
filter s [] = []
filter s (b ∷ bs) = let rest = filter s bs in if s b then b ∷ rest else rest

count-filter :
    (s : ButtonSet) (b : Button) (bs : List Button)
    → count b (filter s bs) ≡ (if s b then count b bs else 0)
count-filter s b [] = ground arith
count-filter s b (x ∷ bs) = elim (Bool-cases (eq_button x b)) [
  | inl e ↦
      let p : s x ≡ s b = ap s ((eq_button_iff x b).0 e) in ground (arith, count-filter s b bs)
  | inr e ↦ ground (arith, count-filter s b bs)
]

count-all_buttons : (b : Button) → count b all_buttons ≡ 1
count-all_buttons Button.thumb_right = refl
count-all_buttons _ = refl

pub count_in_order :
    (s : ButtonSet) (b : Button) → count b (filter s all_buttons) ≡ (if s b then 1 else 0)
count_in_order s b = ground (arith, count-filter s b all_buttons, count-all_buttons b)

abbrev pub in_order : Iteration
in_order = record { iter = λ s. filter s all_buttons; count_iter = count_in_order }

-- The other way round.
abbrev pub buttons_backward : List Button
buttons_backward =
    Button.ps_button ∷ Button.square ∷ Button.cross ∷ Button.circle ∷ Button.triangle
    ∷ Button.shoulder_left ∷ Button.shoulder_right ∷ Button.trigger_left ∷ Button.trigger_right
    ∷ Button.share ∷ Button.options ∷ Button.thumb_left ∷ Button.thumb_right ∷ []

count-buttons_backward : (b : Button) → count b buttons_backward ≡ 1
count-buttons_backward Button.thumb_right = refl
count-buttons_backward _ = refl

pub count_backward :
    (s : ButtonSet) (b : Button) → count b (filter s buttons_backward) ≡ (if s b then 1 else 0)
count_backward s b = ground (arith, count-filter s b buttons_backward, count-buttons_backward b)

abbrev pub backward : Iteration
backward = record { iter = λ s. filter s buttons_backward; count_iter = count_backward }

abbrev pub plain_floats : Floats
plain_floats = record {
  literal = λ n. elim n [ pos k ↦ k | negsuc k ↦ 0 ];
  neg = λ v. v;
  clamp = λ v low high. v;
  sub = λ v w. v;
  mul = λ v w. v;
  div = λ v w. v;
  round = λ v. v;
  hundredths = λ n. n;
  gt = λ v w. ltb w v;
  as_u16 = λ v. v;
  as_i16 = λ v. pos v;
}

abbrev pub Box : Type 0
Box = Point × Point

abbrev pub inside : Box → Point → Bool
inside (a, b) p =
    leb (min a.x b.x) p.x
    && leb p.x (max a.x b.x)
    && (leb (min a.y b.y) p.y && leb p.y (max a.y b.y))

-- The first zone of the list that holds the point.
abbrev pub first_at : List (TouchZone Box) → Point → Option (TouchZone Box)
first_at [] p = none
first_at (z ∷ zs) p = let rest = first_at zs p in if inside z.rect p then some z else rest

abbrev pub boxes : Rstar Box (List (TouchZone Box))
boxes = record {
  from_corners = λ a b. (a, b);
  contains_point = inside;
  bulk_load = λ zs. zs;
  locate_at_point = first_at;
}

located :
    (zs : List (TouchZone Box)) (p : Point) (z : TouchZone Box)
    → first_at zs p ≡ some z
    → In boxes z zs × (zone_contains_point boxes z p ≡ true)
unfolding zone_contains_point
located [] p z h = absurd (ground arith)
located (y ∷ zs) p z h = elim (Bool-cases (inside y.rect p)) [
  | inl e ↦
      let h' = rw e at h in
      let q : y ≡ z = ground arith in (inl (sym q), subst (λ w. inside w.rect p ≡ true) q e)
  | inr e ↦ let r = located zs p z (rw e at h) in (inr r.0, r.1)
]

missed :
    (zs : List (TouchZone Box)) (p : Point)
    → first_at zs p ≡ none
    → All (λ z. zone_contains_point boxes z p ≡ false) zs
unfolding zone_contains_point
missed [] p h = tt
missed (y ∷ zs) p h = elim (Bool-cases (inside y.rect p)) [
  | inl e ↦ absurd (ground arith)
  | inr e ↦ (e, missed zs p (rw e at h))
]

boxes_Documented : Documented boxes
boxes_Documented = record { corners = λ a b p. refl; located = located; missed = missed }

count-get_pressed_buttons_example :
    count Button.trigger_left (get_pressed_buttons a_report.buttons trigger)
    ≡ (if physical a_report.buttons trigger Button.trigger_left then 1 else 0)
count-get_pressed_buttons_example =
    count-get_pressed_buttons a_report.buttons trigger Button.trigger_left

dpad_axes_example : dpad_direction_to_axis_values (compute_dpad_direction a_report.buttons) ≡ (
    if a_report.buttons.up && a_report.buttons.down
      || a_report.buttons.left && a_report.buttons.right
    then (pos 0, pos 0)
    else (
      axis a_report.buttons.left a_report.buttons.right,
      axis a_report.buttons.up a_report.buttons.down,
    ))
dpad_axes_example = dpad_axes a_report.buttons

abbrev pub touches : List TouchReport
touches =
    record { x = 100; y = 200; id = 7; force = 20 }
    ∷ record { x = 1500; y = 800; id = 9; force = 0 }
    ∷ []

rear_On : All (OnPad (point 1920 887)) touches
rear_On = ((omega arith, omega arith), ((omega arith, omega arith), tt))

front_On : All (OnPad (point 1920 1087)) touches
front_On = ((omega arith, omega arith), ((omega arith, omega arith), tt))

rear_rl2_front_rl3_touches_example :
    Each
      (InHalf (point 1920 887) Button.shoulder_left Button.shoulder_right)
      touches
      (process_touch_reports boxes touches (rear_rl2_front_rl3 boxes).rear_touch_config)
    × Each
        (InHalf (point 1920 1087) Button.thumb_left Button.thumb_right)
        touches
        (process_touch_reports boxes touches (rear_rl2_front_rl3 boxes).front_touch_config)
rear_rl2_front_rl3_touches_example =
    rear_rl2_front_rl3_touches boxes boxes_Documented touches touches rear_On front_On

touchpad_touches_example :
    Each
      (InQuarter
        (point 1920 1087)
        Button.shoulder_left
        Button.shoulder_right
        Button.thumb_left
        Button.thumb_right)
      touches
      (process_touch_reports boxes touches
        (front_top_rl2_bottom_rl3_rear_touchpad boxes).front_touch_config)
    × (process_touch_reports boxes touches
          (front_top_rl2_bottom_rl3_rear_touchpad boxes).rear_touch_config
        ≡ [])
    × Each
        (InQuarter
          (point 1920 887)
          Button.shoulder_left
          Button.shoulder_right
          Button.thumb_left
          Button.thumb_right)
        touches
        (process_touch_reports boxes touches
          (rear_top_rl2_bottom_rl3_front_touchpad boxes).rear_touch_config)
    × (process_touch_reports boxes touches
          (rear_top_rl2_bottom_rl3_front_touchpad boxes).front_touch_config
        ≡ [])
touchpad_touches_example = touchpad_touches boxes boxes_Documented touches touches rear_On front_On
