-- ===== src/VirtualDevice/Windows/Report.antt =====
-- `send_report` of windows.rs.
use vita_oxi_pad.Base.{
  ℕ, ◌/◌, min, Bool, true, false, List, [], ◌∷◌, map, Option, none, some, Result, map_err, Outcome,
  panics, returns, ◌==◌, get_elem?, if◌then◌else◌,
}
use vita_oxi_pad.Base.Int.{pos, negsuc}
use vita_oxi_pad.NetProtocol.{F32}
use vita_oxi_pad.Reports.{ButtonsData, MainReport, TouchReport}
use vita_oxi_pad.VirtualDevice.Button.{Button, DpadDirection}
use vita_oxi_pad.VirtualDevice.Utils.{compute_dpad_direction, get_pressed_buttons}
use vita_oxi_pad.VirtualDevice.Touch.{Rstar, TouchAction, button, dpad}
use vita_oxi_pad.VirtualDevice.Config.{
  Config, TouchConfig, zones, touchpad, front_touchpad_rect, rear_touchpad_rect, action_at,
}
use vita_oxi_pad.VirtualDevice.Floats.{Floats, f32_to_i16}
use vita_oxi_pad.VirtualDevice.Windows.{TouchState, touching_by, touch_click}
use vita_oxi_pad.VirtualDevice.Windows.Vigem.{
  VigemDpadDirection, Ds4Buttons, Ds4SpecialButtons, Ds4TouchPoint, Ds4TouchReport, Ds4Report,
  VirtualKey, vk_volume_up, vk_volume_down, System,
}

-- `VitaDevice`, without its target, which `update_ex` stands for.
pub record WindowsDevice (Tree : Type 0) : Type 0 where
  pub config : Config Tree
  pub touch : TouchState

-- The fields that `create` sets.
unfoldable pub new_windows_device : {Tree : Type 0} → Config Tree → WindowsDevice Tree
new_windows_device config = record {
  config = config;
  touch = record { touch_state = false; touch_start_time = none };
}

unfoldable pub map_dpad_direction_to_ds4 : DpadDirection → VigemDpadDirection
map_dpad_direction_to_ds4 DpadDirection.north = VigemDpadDirection.north
map_dpad_direction_to_ds4 DpadDirection.north_east = VigemDpadDirection.north_east
map_dpad_direction_to_ds4 DpadDirection.east = VigemDpadDirection.east
map_dpad_direction_to_ds4 DpadDirection.south_east = VigemDpadDirection.south_east
map_dpad_direction_to_ds4 DpadDirection.south = VigemDpadDirection.south
map_dpad_direction_to_ds4 DpadDirection.south_west = VigemDpadDirection.south_west
map_dpad_direction_to_ds4 DpadDirection.west = VigemDpadDirection.west
map_dpad_direction_to_ds4 DpadDirection.north_west = VigemDpadDirection.north_west
map_dpad_direction_to_ds4 DpadDirection.none = VigemDpadDirection.none

module _ {B : Type 0} (ds4 : Ds4Buttons B) where
  unfoldable pub button_mask : Button → ℕ
  button_mask Button.thumb_right = ds4.thumb_right
  button_mask Button.thumb_left = ds4.thumb_left
  button_mask Button.options = ds4.options
  button_mask Button.share = ds4.share
  button_mask Button.trigger_right = ds4.trigger_right
  button_mask Button.trigger_left = ds4.trigger_left
  button_mask Button.shoulder_right = ds4.shoulder_right
  button_mask Button.shoulder_left = ds4.shoulder_left
  button_mask Button.triangle = ds4.triangle
  button_mask Button.circle = ds4.circle
  button_mask Button.cross = ds4.cross
  button_mask Button.square = ds4.square
  button_mask Button.ps_button = ds4.ps_home

  -- `for button in pressed_buttons`
  unfoldable pub press_all : List Button → B → B
  press_all [] m = m
  press_all (b ∷ bs) m = press_all bs (ds4.bit_or m (button_mask b))

  -- The match on a zone's action.
  unfoldable pub press_action : TouchAction → B → B
  unfolding button_mask map_dpad_direction_to_ds4
  press_action (button b) m = ds4.bit_or m (button_mask b)
  press_action (dpad direction) m = ds4.dpad m (map_dpad_direction_to_ds4 direction)

  -- 255 if the trigger's bit is set.
  unfoldable pub trigger_power : ℕ → B → ℕ
  trigger_power trigger m = if ds4.eq (ds4.bit_or m trigger) m then 255 else 0

module _ {Rect Tree B : Type 0} (rs : Rstar Rect Tree) (ds4 : Ds4Buttons B) where
  -- The loop over the reports.
  unfoldable pub press_touches : Tree → List TouchReport → B → B
  unfolding press_action
  press_touches tree [] m = m
  press_touches tree (touch ∷ touches) m =
      press_touches tree touches
        (elim (action_at rs tree touch) [ none ↦ m | some action ↦ press_action ds4 action m ])

  -- `process_touch_reports` of windows.rs.
  unfoldable pub press_touch_reports : List TouchReport → Option (TouchConfig Tree) → B → B
  press_touch_reports touches (some (zones tree)) m = press_touches tree touches m
  press_touch_reports touches _ m = m

  -- `buttons`, once the touches are processed.
  unfoldable pub report_buttons : MainReport → Config Tree → B
  unfolding press_all press_touch_reports map_dpad_direction_to_ds4
  report_buttons r config =
      let direction = map_dpad_direction_to_ds4 (compute_dpad_direction r.buttons) in
      let pressed =
        press_all ds4 (get_pressed_buttons r.buttons config.trigger_config)
          (ds4.dpad ds4.new direction) in
      press_touch_reports r.back_touch.reports config.rear_touch_config
        (press_touch_reports r.front_touch.reports config.front_touch_config pressed)

module _ (fl : Floats) where
  -- A touch, its height scaled to that of the DualShock's pad.
  unfoldable pub touch_point : ℕ → TouchReport → Ds4TouchPoint
  touch_point max_y t = record {
    x = t.x;
    y =
        fl.as_u16
          (fl.mul (fl.literal (pos t.y)) (fl.div (fl.literal (pos 942)) (fl.literal (pos max_y))));
  }

  unfoldable pub touch_report : ℕ → List TouchReport → Ds4TouchReport
  unfolding touch_point
  touch_report max_y touches =
      let points = map (touch_point max_y) touches in
      record { timestamp = 0; first = get_elem? points 0; second = get_elem? points 1 }

  -- `create_touchpad_report`, by the two touch configurations.
  unfoldable pub create_touchpad_report :
      {Tree : Type 0}
      → Option (TouchConfig Tree)
      → Option (TouchConfig Tree)
      → MainReport
      → Option Ds4TouchReport
  unfolding touch_report
  create_touchpad_report (some touchpad) rear r =
      some (touch_report front_touchpad_rect.1.y r.front_touch.reports)
  create_touchpad_report _ (some touchpad) r =
      some (touch_report rear_touchpad_rect.1.y r.back_touch.reports)
  create_touchpad_report _ _ r = none

module _ {B S W E : Type 0} (fl : Floats) (sys : System B S W E) where
  -- `none` is the error of `SendInput`.
  unfoldable pub simulate_key_press : VirtualKey → W → Option W
  simulate_key_press vk w =
      let (taken, w') = sys.send_input ((vk, false) ∷ (vk, true) ∷ []) w in
      if taken == 0 then none else some w'

  unfoldable pub change_volume_by_key : F32 → W → Option W
  unfolding simulate_key_press
  change_volume_by_key delta w =
      if fl.gt delta (fl.literal (pos 0))
      then simulate_key_press vk_volume_up w
      else if fl.gt (fl.literal (pos 0)) delta
      then simulate_key_press vk_volume_down w
      else some w

  -- The two volume keys, each with its `expect`.
  unfoldable pub press_volume : ButtonsData → W → Outcome W
  unfolding change_volume_by_key
  press_volume b w = elim (if b.vol_up then change_volume_by_key (fl.hundredths 2) w else some w) [
    | none ↦ panics
    | some w' ↦
        elim (if b.vol_down then change_volume_by_key (fl.neg (fl.hundredths 2)) w' else some w') [
          | none ↦ panics
          | some w'' ↦ returns w''
        ]
  ]

-- `SendReportFailed`
pub data SendError (E : Type 0) : Type 0 where
  send_report_failed : E → SendError E

module _ {Rect Tree B S : Type 0} (rs : Rstar Rect Tree) (fl : Floats) (ds4 : Ds4Buttons B)
    (specials : Ds4SpecialButtons S) where
  -- The report that is built from the buttons, the special buttons and the rest.
  unfoldable pub build_report : MainReport → Config Tree → Bool → Ds4Report B S
  unfolding report_buttons trigger_power create_touchpad_report
  build_report r config clicked =
      let buttons = report_buttons rs ds4 r config in
      let special = if clicked then specials.touchpad specials.new true else specials.new in
      let four = fl.literal (pos 4) in
      let minus_four = fl.literal (negsuc 3) in
      let limit = fl.literal (pos 35) in
      let minus_limit = fl.literal (negsuc 34) in
      record {
        thumb_lx = r.lx;
        thumb_ly = r.ly;
        thumb_rx = r.rx;
        thumb_ry = r.ry;
        buttons = buttons;
        touch_report =
            create_touchpad_report fl config.front_touch_config config.rear_touch_config r;
        gyro_x = f32_to_i16 fl r.motion.gyro.x minus_limit limit;
        gyro_y = f32_to_i16 fl r.motion.gyro.z minus_limit limit;
        gyro_z = f32_to_i16 fl (fl.neg r.motion.gyro.y) minus_limit limit;
        accel_x = f32_to_i16 fl (fl.neg r.motion.accelerometer.x) minus_four four;
        accel_y = f32_to_i16 fl (fl.neg r.motion.accelerometer.z) minus_four four;
        accel_z = f32_to_i16 fl r.motion.accelerometer.y minus_four four;
        trigger_l = trigger_power ds4 ds4.trigger_left buttons;
        trigger_r = trigger_power ds4 ds4.trigger_right buttons;
        charging = min (r.charge_percent / 10) 10;
        special = specials.ps_home special r.buttons.ps;
      }

  module _ {W E : Type 0} (sys : System B S W E) where
    -- `now` is the clock. The device is changed before the update can fail.
    unfoldable pub send_windows_report :
        (now : ℕ)
        → MainReport
        → WindowsDevice Tree
        → W
        → Outcome (Result W (SendError E) × WindowsDevice Tree)
    unfolding press_volume build_report
    send_windows_report now r d w = elim (press_volume fl sys r.buttons w) [
      | panics ↦ panics
      | returns w' ↦
          let is_touching = touching_by d.config.front_touch_config d.config.rear_touch_config r in
          let (clicked, touch) = touch_click now is_touching d.touch in
          returns (
            map_err send_report_failed (sys.update_ex (build_report r d.config clicked) w'),
            record d { touch = touch },
          )
    ]
