-- ===== src/VirtualDevice/Utils/Laws.antt =====
-- The buttons that a report presses.
use vita_oxi_pad.Base.{
  ℕ, ◌+◌, ◌≡◌, ◌∙◌, refl, Bool, true, false, ◌&&◌, ◌||◌, List, [], ◌∷◌, arith, if◌then◌else◌,
}
use vita_oxi_pad.Base.Int.{ℤ, pos, negsuc}
use vita_oxi_pad.Reports.{ButtonsData}
use vita_oxi_pad.VirtualDevice.Button.{Button, count, eq_button}
use vita_oxi_pad.VirtualDevice.Utils.{
  TriggerConfig, shoulder, trigger, keep_pressed, trigger_pairs, get_pressed_buttons,
  compute_dpad_direction, dpad_direction_to_axis_values,
}

-- Which of the Vita's buttons stands behind a virtual one.
abbrev pub physical : ButtonsData → TriggerConfig → Button → Bool
physical r t Button.thumb_right = false
physical r t Button.thumb_left = false
physical r t Button.options = r.start
physical r t Button.share = r.select
physical r trigger Button.trigger_right = r.rt
physical r shoulder Button.trigger_right = false
physical r trigger Button.trigger_left = r.lt
physical r shoulder Button.trigger_left = false
physical r trigger Button.shoulder_right = false
physical r shoulder Button.shoulder_right = r.rt
physical r trigger Button.shoulder_left = false
physical r shoulder Button.shoulder_left = r.lt
physical r t Button.triangle = r.triangle
physical r t Button.circle = r.circle
physical r t Button.cross = r.cross
physical r t Button.square = r.square
physical r t Button.ps_button = r.ps

-- An axis with a button at either end: the second pushes up, the first down.
abbrev pub axis : Bool → Bool → ℤ
axis true true = pos 0
axis true false = negsuc 0
axis false true = pos 1
axis false false = pos 0

count-keep_pressed :
    (b x : Button) (pressed : Bool) (l : List (Bool × Button))
    → count b (keep_pressed ((pressed, x) ∷ l))
      ≡ (if eq_button x b && pressed then 1 else 0) + count b (keep_pressed l)
unfolding keep_pressed
count-keep_pressed b x pressed l = ground arith

keep_pressed-nil : (b : Button) → count b (keep_pressed []) ≡ 0
unfolding keep_pressed
keep_pressed-nil b = refl

ruleset counting = (count-keep_pressed, keep_pressed-nil)

abbrev one_if : Bool → ℕ
one_if b = if b then 1 else 0

-- The sum over the pairs, with the two that depend on the trigger configuration last.
abbrev sum_form : ButtonsData → (left right b : Button) → ℕ
sum_form r left right b =
    one_if (eq_button Button.circle b && r.circle)
    + (one_if (eq_button Button.square b && r.square)
        + (one_if (eq_button Button.cross b && r.cross)
            + (one_if (eq_button Button.triangle b && r.triangle)
                + (one_if (eq_button Button.options b && r.start)
                    + (one_if (eq_button Button.share b && r.select)
                        + (one_if (eq_button Button.ps_button b && r.ps)
                            + (one_if (eq_button left b && r.lt)
                                + (one_if (eq_button right b && r.rt) + 0))))))))

count_shoulder :
    (r : ButtonsData) (b : Button)
    → count b (get_pressed_buttons r shoulder)
      ≡ sum_form r Button.shoulder_left Button.shoulder_right b
unfolding get_pressed_buttons trigger_pairs
count_shoulder r b = simp counting

count_trigger :
    (r : ButtonsData) (b : Button)
    → count b (get_pressed_buttons r trigger)
      ≡ sum_form r Button.trigger_left Button.trigger_right b
unfolding get_pressed_buttons trigger_pairs
count_trigger r b = simp counting

shoulder_sum :
    (r : ButtonsData) (b : Button)
    → sum_form r Button.shoulder_left Button.shoulder_right b ≡ one_if (physical r shoulder b)
shoulder_sum r Button.thumb_right = omega arith
shoulder_sum r _ = omega arith

trigger_sum :
    (r : ButtonsData) (b : Button)
    → sum_form r Button.trigger_left Button.trigger_right b ≡ one_if (physical r trigger b)
trigger_sum r Button.thumb_right = omega arith
trigger_sum r _ = omega arith

-- Under either trigger configuration a virtual button is listed once if its Vita button is down,
-- and not at all otherwise.
pub count-get_pressed_buttons :
    (r : ButtonsData) (t : TriggerConfig) (b : Button)
    → count b (get_pressed_buttons r t) ≡ (if physical r t b then 1 else 0)
count-get_pressed_buttons r shoulder b = count_shoulder r b ∙ shoulder_sum r b
count-get_pressed_buttons r trigger b = count_trigger r b ∙ trigger_sum r b

-- The axis values of linux.rs: opposite directions held together centre the whole pad, and any
-- other state gives right minus left and down minus up.
pub dpad_axes :
    (b : ButtonsData)
    → dpad_direction_to_axis_values (compute_dpad_direction b) ≡ (
        if b.up && b.down || b.left && b.right
        then (pos 0, pos 0)
        else (axis b.left b.right, axis b.up b.down))
unfolding compute_dpad_direction dpad_direction_to_axis_values
dpad_axes b = ground arith
