-- ===== src/VirtualDevice/Linux/Report.antt =====
-- The device of linux.rs and the whole of `send_report`. A write to a uinput device is a parameter:
-- it gives the world after it, or the `io::Error`.
pub mod Readers
pub mod Gamepad
pub mod Laws
pub mod Lost
pub mod Order
use vita_oxi_pad.Base.{
  ℕ, Bool, false, List, [], ◌∷◌, ◌++◌, Option, none, some, Result, ok, err, ◌>>=◌, map_err, Outcome,
  panics, returns, replicate,
}
use vita_oxi_pad.Base.Int.{ℤ, pos, negsuc}
use vita_oxi_pad.Reports.{MainReport}
use vita_oxi_pad.VirtualDevice.Button.{Iteration, empty_set}
use vita_oxi_pad.VirtualDevice.Touch.{Rstar}
use vita_oxi_pad.VirtualDevice.Config.{Config, TouchpadSource, front, rear, process_touch_reports}
use vita_oxi_pad.VirtualDevice.Floats.{Floats, f32_to_i16}
use vita_oxi_pad.VirtualDevice.Linux.Events.{InputEvent, absolute, synchronize, x, y, z, rx, ry, rz}
use vita_oxi_pad.VirtualDevice.Linux.Buttons.{
  Pressed, Previous, pressed_by_buttons, apply_actions, main_events, remember,
}
use vita_oxi_pad.VirtualDevice.Linux.Touch.{Slots, create_touch_events}

pub data Handle : Type 0 where
  main touchpad sensor keyboard : Handle

-- `WriteEventFailed`, the one error of `send_report`.
pub data WriteError (E : Type 0) : Type 0 where
  write_event_failed : E → WriteError E

-- `VitaDevice`, without its handles, which the writes name, and its identifiers.
pub record VitaDevice (Tree : Type 0) : Type 0 where
  pub config : Config Tree
  pub previous : Previous
  pub previous_front_touches : Slots
  pub previous_rear_touches : Slots
  pub touch_state : Bool

-- The fields that `VitaDevice::new` sets.
unfoldable pub new_device : {Tree : Type 0} → Config Tree → VitaDevice Tree
new_device config = record {
  config = config;
  previous = record {
    previous_buttons = empty_set;
    previous_hat_x = pos 0;
    previous_hat_y = pos 0;
  };
  previous_front_touches = replicate 6 none;
  previous_rear_touches = replicate 4 none;
  touch_state = false;
}

-- `create_motion_events`
unfoldable pub create_motion_events : Floats → MainReport → List InputEvent
create_motion_events fl r =
    let four = fl.literal (pos 4) in
    let minus_four = fl.literal (negsuc 3) in
    let limit = fl.literal (pos 35) in
    let minus_limit = fl.literal (negsuc 34) in
    let accel_x = f32_to_i16 fl (fl.neg r.motion.accelerometer.x) minus_four four in
    let accel_y = f32_to_i16 fl r.motion.accelerometer.y minus_four four in
    let accel_z = f32_to_i16 fl (fl.neg r.motion.accelerometer.z) minus_four four in
    let gyro_x = f32_to_i16 fl r.motion.gyro.x minus_limit limit in
    let gyro_y = f32_to_i16 fl (fl.neg r.motion.gyro.y) minus_limit limit in
    let gyro_z = f32_to_i16 fl r.motion.gyro.z minus_limit limit in
    absolute x accel_x
    ∷ absolute y accel_z
    ∷ absolute z accel_y
    ∷ absolute rx gyro_x
    ∷ absolute ry gyro_z
    ∷ absolute rz gyro_y
    ∷ []

abbrev pub Write : Type 0
Write = Handle × List InputEvent

-- What the touchpad source asks for: the writes, and the device with its slots and state.
unfoldable pub touchpad_writes :
    {Tree : Type 0}
    → Option TouchpadSource
    → MainReport
    → VitaDevice Tree
    → Outcome (List Write × VitaDevice Tree)
touchpad_writes (some front) r d =
    elim (create_touch_events r.front_touch.reports d.previous_front_touches 6 d.touch_state) [
      | panics ↦ panics
      | returns (events, slots, state) ↦ returns (
        (touchpad, events) ∷ (touchpad, synchronize ∷ []) ∷ [],
        record d { previous_front_touches = slots; touch_state = state },
      )
    ]
touchpad_writes (some rear) r d =
    elim (create_touch_events r.back_touch.reports d.previous_rear_touches 4 d.touch_state) [
      | panics ↦ panics
      | returns (events, slots, state) ↦ returns (
        (touchpad, events) ∷ (touchpad, synchronize ∷ []) ∷ [],
        record d { previous_rear_touches = slots; touch_state = state },
      )
    ]
touchpad_writes none r d = returns ([], d)

module _ {W E : Type 0} (write : Handle → List InputEvent → W → Result W E) where
  -- Writes in a row, each with its `?`.
  unfoldable pub write_all : List Write → W → Result W (WriteError E)
  write_all [] w = ok w
  write_all ((handle, events) ∷ rest) w = do
    w' ← map_err write_event_failed (write handle events w)
    write_all rest w'

module _ {Rect Tree : Type 0} (rs : Rstar Rect Tree) where
  -- `pressed_buttons_set`, `hat_x_value` and `hat_y_value` after the touch actions.
  unfoldable pub pressed_now : MainReport → Config Tree → Pressed
  pressed_now r config =
      apply_actions
        (process_touch_reports rs r.front_touch.reports config.front_touch_config
          ++ process_touch_reports rs r.back_touch.reports config.rear_touch_config)
        (pressed_by_buttons r.buttons config.trigger_config)

-- The writes before the touchpad's, and those after it.
abbrev pub gamepad_writes : List InputEvent → List Write
gamepad_writes events =
    (main, events)
    ∷ (main, synchronize ∷ [])
    ∷ (keyboard, events)
    ∷ (keyboard, synchronize ∷ [])
    ∷ []

abbrev pub motion_writes : Floats → MainReport → List Write
motion_writes fl r = (sensor, create_motion_events fl r) ∷ (sensor, synchronize ∷ []) ∷ []

module _ {Rect Tree : Type 0} (rs : Rstar Rect Tree) (order : Iteration) (fl : Floats) where
  module _ {W E : Type 0} (write : Handle → List InputEvent → W → Result W E) where
    -- The result and the device, which is changed before a write fails.
    unfoldable pub send_report :
        MainReport → VitaDevice Tree → W → Outcome (Result W (WriteError E) × VitaDevice Tree)
    send_report r d w =
        let now = pressed_now rs r d.config in
        let events = main_events order r now d.previous in
        let d' = record d { previous = remember now d.previous } in
        elim (write_all write (gamepad_writes events) w) [
          | err e ↦ returns (err e, d')
          | ok w' ↦ elim (touchpad_writes d.config.touchpad_source r d') [
            | panics ↦ panics
            | returns (touches, d'') ↦
                returns (write_all write (touches ++ motion_writes fl r) w', d'')
          ]
        ]
