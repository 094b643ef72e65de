-- ===== src/VirtualDevice/Linux/Report/Gamepad.antt =====
-- The gamepad part of `send_report`: what a reader sees after its events.
use vita_oxi_pad.Base.{◌≡◌, ◌∙◌, ◌||◌, List, ◌++◌}
use vita_oxi_pad.Base.Int.{pos}
use vita_oxi_pad.Reports.{MainReport}
use vita_oxi_pad.VirtualDevice.Button.{Button, Iteration}
use vita_oxi_pad.VirtualDevice.Utils.Laws.{physical}
use vita_oxi_pad.VirtualDevice.Utils.{compute_dpad_direction, dpad_direction_to_axis_values}
use vita_oxi_pad.VirtualDevice.Touch.{Rstar, TouchAction}
use vita_oxi_pad.VirtualDevice.Config.{Config, process_touch_reports}
use vita_oxi_pad.VirtualDevice.Linux.Events.{View, applies, x, y, rx, ry, hat0x, hat0y}
use vita_oxi_pad.VirtualDevice.Linux.Buttons.{main_events, remember, Previous}
use vita_oxi_pad.VirtualDevice.Linux.Buttons.Laws.{Synced, shows, main_events_view}
use vita_oxi_pad.VirtualDevice.Linux.Buttons.Pressing.{asks, last_direction, apply_actions_pressed}
use vita_oxi_pad.VirtualDevice.Linux.Report.{pressed_now}

module _ {Rect Tree : Type 0} (rs : Rstar Rect Tree) where
  -- The touch actions of a report, front pad first.
  abbrev pub actions : MainReport → Config Tree → List TouchAction
  actions r config =
      process_touch_reports rs r.front_touch.reports config.front_touch_config
      ++ process_touch_reports rs r.back_touch.reports config.rear_touch_config

  -- What a reader sees of the gamepad part of a report.
  pub record GamepadShows (r : MainReport) (config : Config Tree) (v : View) : Type 0 where
    pub buttons :
        (b : Button)
        → shows v b ≡ (physical r.buttons config.trigger_config b || asks b (actions r config))
    pub hat :
        dpad_direction_to_axis_values
          (last_direction (actions r config) (compute_dpad_direction r.buttons))
        ≡ (v.axes hat0x, v.axes hat0y)
    pub lx : v.axes x ≡ pos r.lx
    pub ly : v.axes y ≡ pos r.ly
    pub rx_value : v.axes rx ≡ pos r.rx
    pub ry_value : v.axes ry ≡ pos r.ry

  pub main_events-GamepadShows :
      (order : Iteration) (r : MainReport) (config : Config Tree) (old : Previous) (v : View)
      → Synced old v
      → GamepadShows r config (applies (main_events order r (pressed_now rs r config) old) v)
        × Synced
            (remember (pressed_now rs r config) old)
            (applies (main_events order r (pressed_now rs r config) old) v)
  unfolding pressed_now
  main_events-GamepadShows order r config old v s =
      let now = pressed_now rs r config in
      let seen = main_events_view order r now old v s in
      let pressed = apply_actions_pressed r.buttons config.trigger_config (actions r config) in
      (
        record {
          buttons = λ b. seen.0 b ∙ pressed.0 b;
          hat = pressed.1 ∙ cc (seen.1, seen.2);
          lx = seen.3;
          ly = seen.4;
          rx_value = seen.5;
          ry_value = seen.6;
        },
        seen.7,
      )
