-- ===== src/Tests/Touching.antt =====
-- A new Linux device, reports sent to it, and what readers of its handles see.
use vita_oxi_pad.Base.{
  ℕ, ◌≡◌, refl, false, ◌||◌, List, [], ◌∷◌, ◌++◌, Option, none, some, Result, err, returns,
  get_elem?,
}
use vita_oxi_pad.Base.Int.{pos}
use vita_oxi_pad.VirtualDevice.Button.{Button}
use vita_oxi_pad.VirtualDevice.Utils.{
  trigger, compute_dpad_direction, dpad_direction_to_axis_values,
}
use vita_oxi_pad.VirtualDevice.Utils.Laws.{physical}
use vita_oxi_pad.VirtualDevice.Touch.{button, TouchZone}
use vita_oxi_pad.VirtualDevice.Linux.Life.{
  set_device_config, created, sent, configured, Alive, Reach-Reported,
}
use vita_oxi_pad.VirtualDevice.Config.{
  ConfigBuilder, Config, rear_top_rl2_bottom_rl3_front_touchpad,
}
use vita_oxi_pad.VirtualDevice.Linux.Events.{InputEvent, applies, x, y, rx, ry, hat0x, hat0y}
use vita_oxi_pad.VirtualDevice.Linux.Buttons.{
  Pressed, apply_actions, pressed_by_buttons, main_events, remember, create_stick_events,
  volume_events,
}
use vita_oxi_pad.VirtualDevice.Linux.Buttons.Laws.{Synced, shows, at_rest, main_events_view}
use vita_oxi_pad.VirtualDevice.Linux.Buttons.Pressing.{asks, last_direction, apply_actions_pressed}
use vita_oxi_pad.VirtualDevice.Linux.Touch.View.{Contacts}
use vita_oxi_pad.VirtualDevice.Linux.Touch.Laws.{Followed, create_touch_events-Followed}
use vita_oxi_pad.VirtualDevice.Linux.Report.{
  Handle, VitaDevice, write_event_failed, new_device, pressed_now, send_report,
}
use vita_oxi_pad.VirtualDevice.Linux.Report.Readers.{IsValid, observe}
use vita_oxi_pad.VirtualDevice.Linux.Report.Order.{send_report_order}
use vita_oxi_pad.VirtualDevice.Linux.Report.Lost.{send_report_loses}
use vita_oxi_pad.VirtualDevice.Linux.Report.Laws.{
  InSync, Reported, send_report-Reported, untouched, new_device-InSync,
}
use vita_oxi_pad.Tests.Wire.{a_report}
use vita_oxi_pad.Tests.Gamepad.{Box, boxes, in_order, backward, plain_floats, touches}

abbrev a_config : Config (List (TouchZone Box))
a_config = rear_top_rl2_bottom_rl3_front_touchpad boxes

new_IsValid : IsValid (new_device a_config)
new_IsValid = (new_device-InSync a_config).0

new_InSync : InSync (new_device a_config) untouched
new_InSync = (new_device-InSync a_config).1

send_report-Reported_example :
    Reported boxes in_order plain_floats ℕ a_report (new_device a_config) untouched
send_report-Reported_example =
    send_report-Reported boxes in_order plain_floats ℕ a_report (new_device a_config) untouched
      new_IsValid new_InSync

-- Writes that all fail.
abbrev broken : Handle → List InputEvent → ℕ → Result ℕ ℕ
broken handle events w = err 19

send_report_loses_example :
    (d' : VitaDevice (List (TouchZone Box))) × (send_report boxes in_order plain_floats broken
        a_report
        (new_device a_config)
        0
      ≡ returns (err (write_event_failed 19), d'))
    × (main_events in_order a_report (pressed_now boxes a_report d'.config) d'.previous
        ≡ create_stick_events a_report ++ volume_events a_report.buttons)
send_report_loses_example =
    send_report_loses boxes in_order plain_floats broken a_report (new_device a_config) 0 19 refl

rest_Synced : Synced at_rest untouched.gamepad
rest_Synced = record { buttons = λ b. refl; hat_x = refl; hat_y = refl }

abbrev now : Pressed
now = apply_actions (button Button.thumb_left ∷ []) (pressed_by_buttons a_report.buttons trigger)

main_events_view_example :
    let w = applies (main_events in_order a_report now at_rest) untouched.gamepad in
    ((b : Button) → shows w b ≡ now.buttons b)
    × (w.axes hat0x ≡ now.hat_x)
    × (w.axes hat0y ≡ now.hat_y)
    × (w.axes x ≡ pos a_report.lx)
    × (w.axes y ≡ pos a_report.ly)
    × (w.axes rx ≡ pos a_report.rx)
    × (w.axes ry ≡ pos a_report.ry)
    × Synced (remember now at_rest) w
main_events_view_example =
    main_events_view in_order a_report now at_rest untouched.gamepad rest_Synced

apply_actions_pressed_example :
    ((b : Button)
      → now.buttons b
        ≡ (physical a_report.buttons trigger b || asks b (button Button.thumb_left ∷ [])))
    × (dpad_direction_to_axis_values
          (last_direction (button Button.thumb_left ∷ []) (compute_dpad_direction a_report.buttons))
        ≡ (now.hat_x, now.hat_y))
apply_actions_pressed_example =
    apply_actions_pressed a_report.buttons trigger (button Button.thumb_left ∷ [])

-- The second slot held a touch that has ended, and the first a touch that goes on.
abbrev held : List (Option ℕ)
held = some 7 ∷ some 3 ∷ some 4 ∷ none ∷ []

abbrev held_view : Contacts
held_view = record untouched.pad { ids = λ j. elim (get_elem? held j) [ none ↦ none | some o ↦ o ] }

held_agrees : (j : ℕ) (o : Option ℕ) → get_elem? held j ≡ some o → held_view.ids j ≡ o
held_agrees j o e = rw e refl

create_touch_events-Followed_example : Followed touches held 4 false held_view
create_touch_events-Followed_example =
    create_touch_events-Followed touches held 4 false held_view refl held_agrees refl

one_sent : Reported boxes in_order plain_floats ℕ a_report (new_device a_config) untouched
one_sent =
    send_report-Reported boxes in_order plain_floats ℕ a_report (new_device a_config) untouched
      new_IsValid new_InSync

-- The rear zones are switched off.
abbrev no_zones : ConfigBuilder (List (TouchZone Box))
no_zones = record {
  front_touch_config = none;
  rear_touch_config = some none;
  trigger_config = none;
  touchpad_source = none;
}

Reach-Reported_example :
    Alive a_config (set_device_config no_zones one_sent.after) one_sent.readers
    × Reported boxes in_order plain_floats ℕ a_report
        (set_device_config no_zones one_sent.after)
        one_sent.readers
Reach-Reported_example =
    Reach-Reported boxes in_order plain_floats ℕ a_config
      (set_device_config no_zones one_sent.after) one_sent.readers a_report
      (configured no_zones (sent a_report created one_sent.runs))

send_report_order_example :
    send_report boxes in_order plain_floats {E = ℕ} observe a_report (new_device a_config) untouched
    ≡ send_report boxes backward plain_floats {E = ℕ} observe a_report
        (new_device a_config)
        untouched
send_report_order_example =
    send_report_order boxes plain_floats ℕ in_order backward a_report (new_device a_config)
      untouched
