-- ===== src/Tests/Setup.antt =====
-- The set-up of the Linux device with a system that refuses the motion sensors, and with one that
-- does what it is asked.
use Prim.Native.String.{String}
use vita_oxi_pad.Base.{
  ◌≡◌, ◌≢◌, ◌↔◌, refl, false, List, ◌∷◌, ◌++◌, map, Option, none, some, Result, ok, err, returns,
  arith, All,
}
use vita_oxi_pad.Base.Int.{pos}
use vita_oxi_pad.VirtualDevice.Floats.{Floats}
use vita_oxi_pad.VirtualDevice.Touch.{TouchZone}
use vita_oxi_pad.VirtualDevice.Config.{Config, front, rear_top_rl2_bottom_rl3_front_touchpad}
use vita_oxi_pad.VirtualDevice.Linux.Buttons.{Previous, main_events}
use vita_oxi_pad.VirtualDevice.Linux.Report.Laws.{InSync, untouched, new_device-InSync}
use vita_oxi_pad.VirtualDevice.Linux.Report.Readers.{IsValid}
use vita_oxi_pad.VirtualDevice.Linux.Report.{
  Handle, main, touchpad, sensor, keyboard, pressed_now, create_motion_events, new_device,
  VitaDevice, Write, touchpad_writes,
}
use vita_oxi_pad.VirtualDevice.Linux.Setup.{
  Call, set_evbit, absolute_events, call_all, config_named, setup, create, main_setup,
  touchpad_setup, sensor_setup, keyboard_setup, open_files, set_propbit, accelerometer,
  create_device, sensor_axes, invalid_config, device_creation_failed,
}
use vita_oxi_pad.VirtualDevice.Linux.Setup.Abilities.{Kernel, blank, made, granted, granted_all}
use vita_oxi_pad.VirtualDevice.Linux.Setup.Taken.{OneTakes, main_events_taken}
use vita_oxi_pad.Reports.{touch_data_from}
use vita_oxi_pad.VirtualDevice.Linux.Setup.Written.{Passed, touchpad_writes_taken}
use vita_oxi_pad.VirtualDevice.Linux.Setup.Touched.{SensorTakes, motion_events_taken}
use vita_oxi_pad.VirtualDevice.Linux.Setup.Create.{create_refuses_iff, create_stops, create_makes}
use vita_oxi_pad.Tests.Gamepad.{Box, boxes, in_order, plain_floats}
use vita_oxi_pad.Tests.Wire.{a_report}

abbrev a_config : Config (List (TouchZone Box))
a_config = rear_top_rl2_bottom_rl3_front_touchpad boxes

abbrev nothing_pressed : Previous
nothing_pressed = record {
  previous_buttons = λ b. false;
  previous_hat_x = pos 0;
  previous_hat_y = pos 0;
}

main_events_taken_example :
    All
      (OneTakes a_config)
      (main_events in_order a_report (pressed_now boxes a_report a_config) nothing_pressed)
main_events_taken_example =
    main_events_taken a_config boxes in_order a_report nothing_pressed (omega arith) (omega arith)
      (omega arith) (omega arith)

-- The configuration's touchpad stands for the front pad.
touchpad_writes_taken_example :
    (writes : List Write) × (after : VitaDevice (List (TouchZone Box))) × (touchpad_writes
        (new_device a_config).config.touchpad_source
        a_report
        (new_device a_config)
      ≡ returns (writes, after))
    × All (Passed (new_device a_config).config) writes
unfolding rear_top_rl2_bottom_rl3_front_touchpad new_device touch_data_from
touchpad_writes_taken_example =
    touchpad_writes_taken a_report (new_device a_config) (new_device-InSync a_config).0 (
      (omega arith, omega arith, omega arith, omega arith),
      ((omega arith, omega arith, omega arith, omega arith), tt),
    )

abbrev still : Floats
still = record plain_floats { as_i16 = λ v. pos 0 }

motion_events_taken_example : All (SensorTakes a_config) (create_motion_events still a_report)
motion_events_taken_example =
    motion_events_taken a_config still a_report (λ v. omega arith) (λ v. omega arith)

abbrev unnamed : {W : Type 0} → Handle → W → Option String
unnamed h w = none

abbrev opens : Handle → Kernel → Result Kernel String
opens h w = ok w

abbrev asked : String
asked = "standard"

create_refuses_iff_example :
    (create boxes granted unnamed opens asked blank ≡ err (invalid_config asked)) ↔ (
      (◌≢◌ {A = String} asked "standart")
      × (◌≢◌ {A = String} asked "alt_triggers")
      × (◌≢◌ {A = String} asked "rear_touchpad")
      × (◌≢◌ {A = String} asked "front_touchpad"))
create_refuses_iff_example = create_refuses_iff boxes granted unnamed opens asked blank

-- A system that has no motion sensors.
abbrev deaf : Handle → Call → Kernel → Result Kernel String
deaf sensor c w = err "No such device"
deaf h c w = granted h c w

abbrev calls_before : List (Handle × Call)
calls_before =
    map (λ c. (main, c)) main_setup ++ map (λ c. (touchpad, c)) (touchpad_setup (some front))

abbrev calls_after : List (Handle × Call)
calls_after =
    (sensor, set_propbit accelerometer)
    ∷ (sensor, create_device "PS Vita VitaOxiPad (Motion Sensors)" sensor_axes)
    ∷ map (λ c. (keyboard, c)) keyboard_setup

create_stops_example :
    create boxes deaf unnamed opens "front_touchpad" blank
    ≡ err (device_creation_failed "No such device")
unfolding config_named open_files setup main_setup touchpad_setup sensor_setup keyboard_setup
    call_all rear_top_rl2_bottom_rl3_front_touchpad
create_stops_example =
    create_stops boxes deaf unnamed opens "front_touchpad" a_config calls_before calls_after sensor
      (set_evbit absolute_events) blank blank (granted_all calls_before blank) "No such device" refl
      refl refl refl refl

create_makes_example :
    (create {E = String} boxes granted unnamed (λ h w. ok w) "front_touchpad" blank
      ≡ ok (record { device = new_device a_config; ids = none; world = made a_config }))
    × IsValid (new_device a_config)
    × InSync (new_device a_config) untouched
unfolding config_named
create_makes_example = create_makes boxes String unnamed "front_touchpad" a_config refl
