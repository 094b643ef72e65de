-- ===== src/Tests/Sent.antt =====
-- Reports sent to the Windows device, with a mask whose bits are numbered from 4 on.
use vita_oxi_pad.Base.{
  ℕ, ◌-◌, ◌≤◌, ◌≡◌, refl, ap, Bool, true, false, ◌&&◌, ◌||◌, not, List, [], ◌∷◌, ok, arith, ◌==◌,
  if◌then◌else◌,
}
use vita_oxi_pad.VirtualDevice.Button.{DpadDirection, Button, eq_button, discriminant}
use vita_oxi_pad.VirtualDevice.Touch.{TouchZone}
use vita_oxi_pad.VirtualDevice.Config.{
  Config, rear_top_rl2_bottom_rl3_front_touchpad, process_touch_reports, push_actions, action_at,
}
use vita_oxi_pad.Reports.{touch_data_from, buttons_from}
use vita_oxi_pad.VirtualDevice.Linux.Buttons.{apply_actions, pressed_by_buttons}
use vita_oxi_pad.Base.Int.{negsuc}
use vita_oxi_pad.VirtualDevice.Utils.{
  dpad_direction_to_axis_values, get_pressed_buttons, keep_pressed, trigger_pairs,
  compute_dpad_direction,
}
use vita_oxi_pad.VirtualDevice.Linux.Report.{pressed_now}
use vita_oxi_pad.VirtualDevice.Windows.Vigem.{
  VigemDpadDirection, Ds4Buttons, Ds4SpecialButtons, Ds4Report, System,
}
use vita_oxi_pad.VirtualDevice.Windows.Report.{
  new_windows_device, button_mask, report_buttons, map_dpad_direction_to_ds4,
}
use vita_oxi_pad.VirtualDevice.Windows.Pressed.{
  is_ps, Bits, report_buttons_agree, report_buttons_pad,
}
use vita_oxi_pad.VirtualDevice.Windows.Sent.{Sent, send_windows_report-Sent}
use vita_oxi_pad.Tests.Gamepad.{Box, boxes, plain_floats}
use vita_oxi_pad.Tests.Wire.{a_report}

abbrev Mask : Type 0
Mask = (ℕ → Bool) × VigemDpadDirection

abbrev set_bit : ℕ → (ℕ → Bool) → ℕ → Bool
set_bit k s j = k == j || s j

abbrev same : Bool → Bool → Bool
same true b = b
same false b = not b

abbrev member : ℕ → List ℕ → Bool
member k [] = false
member k (j ∷ js) = k == j || member k js

-- The sets agree on the bits of the list.
abbrev same_on : List ℕ → (ℕ → Bool) → (ℕ → Bool) → Bool
same_on [] s t = true
same_on (j ∷ js) s t = same (s j) (t j) && same_on js s t

same_on-set_bit :
    (js : List ℕ) (k : ℕ) (s : ℕ → Bool) → same_on js (set_bit k s) s ≡ (s k || not (member k js))
same_on-set_bit [] k s = ground arith
same_on-set_bit (j ∷ js) k s = ground (arith, same_on-set_bit js k s)

abbrev bits_of_buttons : List ℕ
bits_of_buttons = 4 ∷ 5 ∷ 6 ∷ 7 ∷ 8 ∷ 9 ∷ 10 ∷ 11 ∷ 12 ∷ 13 ∷ 14 ∷ 15 ∷ []

abbrev number : VigemDpadDirection → ℕ
number VigemDpadDirection.north = 0
number VigemDpadDirection.north_east = 1
number VigemDpadDirection.east = 2
number VigemDpadDirection.south_east = 3
number VigemDpadDirection.south = 4
number VigemDpadDirection.south_west = 5
number VigemDpadDirection.west = 6
number VigemDpadDirection.north_west = 7
number VigemDpadDirection.none = 8

abbrev numbered : Ds4Buttons Mask
numbered = record {
  new = ((λ j. false), VigemDpadDirection.north);
  dpad = λ m d. (m.0, d);
  bit_or = λ m k. (set_bit k m.0, m.1);
  eq = λ m n. number m.1 == number n.1 && same_on bits_of_buttons m.0 n.0;
  square = 4;
  cross = 5;
  circle = 6;
  triangle = 7;
  shoulder_left = 8;
  shoulder_right = 9;
  trigger_left = 10;
  trigger_right = 11;
  share = 12;
  options = 13;
  thumb_left = 14;
  thumb_right = 15;
  ps_home = 0;
}

button_mask_lem :
    (b : Button)
    → (button_mask numbered b ≡ (if is_ps b then 0 else 15 - discriminant b))
      × (discriminant b ≤ 12)
unfolding button_mask
button_mask_lem Button.ps_button = (refl, omega arith)
button_mask_lem _ = (refl, omega arith)

apart :
    (a b : Button)
    → is_ps b ≡ false
    → (button_mask numbered a == button_mask numbered b) ≡ eq_button a b
apart a b h = ground (arith, button_mask_lem a, button_mask_lem b)

listed : (b : Button) → is_ps b ≡ false → member (button_mask numbered b) bits_of_buttons ≡ true
unfolding button_mask
listed Button.ps_button h = ground arith
listed _ h = refl

numbered_Bits : Bits numbered
numbered_Bits = record {
  has = λ m k. m.0 k;
  pad = λ m. m.1;
  has_new = λ b h. refl;
  has_bit_or = λ m a b h. ap (λ c. c || m.0 (button_mask numbered b)) (apart a b h);
  has_dpad = λ m d b h. refl;
  pad_bit_or = λ m a h. refl;
  pad_dpad = λ m d. refl;
  eq_bit_or = λ m b h.
      ground (arith, same_on-set_bit bits_of_buttons (button_mask numbered b) m.0, listed b h);
}

abbrev a_config : Config (List (TouchZone Box))
a_config = rear_top_rl2_bottom_rl3_front_touchpad boxes

report_buttons_agree_example :
    numbered_Bits.has
      (report_buttons boxes numbered a_report a_config)
      (button_mask numbered Button.trigger_left)
    ≡ (pressed_now boxes a_report a_config).buttons Button.trigger_left
report_buttons_agree_example =
    report_buttons_agree boxes numbered numbered_Bits a_report a_config Button.trigger_left refl

report_buttons_pad_example :
    (numbered_Bits.pad (report_buttons boxes numbered a_report a_config)
      ≡ VigemDpadDirection.north_west)
    × (dpad_direction_to_axis_values DpadDirection.north_west ≡ (negsuc 0, negsuc 0))
unfolding pressed_now apply_actions process_touch_reports rear_top_rl2_bottom_rl3_front_touchpad
    push_actions touch_data_from action_at pressed_by_buttons get_pressed_buttons keep_pressed
    buttons_from trigger_pairs map_dpad_direction_to_ds4 compute_dpad_direction
    dpad_direction_to_axis_values
report_buttons_pad_example = report_buttons_pad boxes numbered numbered_Bits a_report a_config refl

abbrev special : Ds4SpecialButtons (Bool × Bool)
special = record { new = (false, false); touchpad = λ s b. (b, s.1); ps_home = λ s b. (s.0, b) }

-- The world is the list of the reports.
abbrev listing : System Mask (Bool × Bool) (List (Ds4Report Mask (Bool × Bool))) ℕ
listing = record { send_input = λ l w. (2, w); update_ex = λ r w. ok (r ∷ w) }

send_windows_report-Sent_example :
    Sent boxes plain_floats numbered special listing numbered_Bits 7000 a_report
      (new_windows_device a_config)
      []
send_windows_report-Sent_example =
    send_windows_report-Sent boxes plain_floats numbered special listing numbered_Bits 7000 a_report
      (new_windows_device a_config) [] (λ l v. omega arith)
