-- ===== src/VirtualDevice/Linux/Setup/Taken.antt =====
-- The gamepad and the keyboard of `new` in linux.rs, beside what `send_report` writes to them.
use vita_oxi_pad.Base.{
  true, ℕ, ◌<◌, ◌≡◌, refl, ap, Bool, true, false, not, List, [], ◌∷◌, arith, All, All-append, subst,
}
use vita_oxi_pad.Base.Int.{pos}
use vita_oxi_pad.Reports.{MainReport, ButtonsData}
use vita_oxi_pad.VirtualDevice.Button.{Button, DpadDirection, Iteration, difference}
use vita_oxi_pad.VirtualDevice.Utils.{dpad_direction_to_axis_values}
use vita_oxi_pad.VirtualDevice.Touch.{Rstar}
use vita_oxi_pad.VirtualDevice.Config.{Config}
use vita_oxi_pad.VirtualDevice.Linux.Events.{
  InputEvent, key, absolute, map_button_to_ds4, x, y, rx, ry, hat0x, hat0y, volume_up, volume_down,
}
use vita_oxi_pad.VirtualDevice.Linux.Buttons.{
  Pressed, Previous, key_events, dpad_events, create_stick_events, volume_events, main_events,
}
use vita_oxi_pad.VirtualDevice.Linux.Report.{main, keyboard, pressed_now}
use vita_oxi_pad.VirtualDevice.Linux.Buttons.Pressing.{apply_actions_pressed}
use vita_oxi_pad.VirtualDevice.Linux.Report.Gamepad.{actions}
use vita_oxi_pad.VirtualDevice.Linux.Setup.{
  joystick_abs_info, setup, main_setup, touchpad_setup, sensor_setup, keyboard_setup,
}
use vita_oxi_pad.VirtualDevice.Linux.Setup.Abilities.{made, takes, within}

within-joystick : (n : ℕ) → n < 256 → within (pos n) joystick_abs_info ≡ true
within-joystick n h = ground arith

module _ {Tree : Type 0} (config : Config Tree) where
  -- One of the gamepad and the keyboard passes an event on, and the other does not.
  abbrev pub OneTakes : InputEvent → Type 0
  OneTakes e = takes (made config main) e ≡ not (takes (made config keyboard) e)

  button-OneTakes : (b : Button) (state : Bool) → OneTakes (key (map_button_to_ds4 b) state)
  unfolding made setup main_setup touchpad_setup sensor_setup keyboard_setup map_button_to_ds4
  button-OneTakes Button.thumb_right state = refl
  button-OneTakes _ state = refl

  volume-OneTakes :
      (state : Bool) → OneTakes (key volume_up state) × OneTakes (key volume_down state)
  unfolding made setup main_setup touchpad_setup sensor_setup keyboard_setup map_button_to_ds4
  volume-OneTakes state = (refl, refl)

  stick-OneTakes :
      (n : ℕ)
      → n < 256
      → OneTakes (absolute x (pos n))
        × OneTakes (absolute y (pos n))
        × OneTakes (absolute rx (pos n))
        × OneTakes (absolute ry (pos n))
  unfolding made setup main_setup touchpad_setup sensor_setup keyboard_setup map_button_to_ds4
  stick-OneTakes n h = let fits = within-joystick n h in (fits, fits, fits, fits)

  hat-OneTakes :
      (d : DpadDirection)
      → OneTakes (absolute hat0x (dpad_direction_to_axis_values d).0)
        × OneTakes (absolute hat0y (dpad_direction_to_axis_values d).1)
  unfolding made setup main_setup touchpad_setup sensor_setup keyboard_setup map_button_to_ds4
      dpad_direction_to_axis_values
  hat-OneTakes DpadDirection.north = (refl, refl)
  hat-OneTakes _ = (refl, refl)

  key_events-OneTakes : (state : Bool) (bs : List Button) → All OneTakes (key_events state bs)
  unfolding key_events
  key_events-OneTakes state [] = tt
  key_events-OneTakes state (b ∷ bs) = (button-OneTakes b state, key_events-OneTakes state bs)

  dpad_events-OneTakes :
      (d : DpadDirection) (now : Pressed) (old : Previous)
      → dpad_direction_to_axis_values d ≡ (now.hat_x, now.hat_y)
      → All OneTakes (dpad_events now old)
  unfolding dpad_events
  dpad_events-OneTakes d now old e =
      let hx = subst (λ v. OneTakes (absolute hat0x v)) (ap (λ p. p.0) e) (hat-OneTakes d).0 in
      let hy = subst (λ v. OneTakes (absolute hat0y v)) (ap (λ p. p.1) e) (hat-OneTakes d).1 in
      ground (arith, hx, hy)

  volume_events-OneTakes : (b : ButtonsData) → All OneTakes (volume_events b)
  unfolding volume_events
  volume_events-OneTakes b = ground (arith, volume-OneTakes true, volume-OneTakes false)

  create_stick_events-OneTakes :
      (r : MainReport)
      → r.lx < 256
      → r.ly < 256
      → r.rx < 256
      → r.ry < 256
      → All OneTakes (create_stick_events r)
  unfolding create_stick_events
  create_stick_events-OneTakes r a b c d = (
    (stick-OneTakes r.lx a).0,
    ((stick-OneTakes r.ly b).1, ((stick-OneTakes r.rx c).2, ((stick-OneTakes r.ry d).3, tt))),
  )

  -- For a report whose sticks are bytes, each event that is written to the gamepad and to the
  -- keyboard is passed on by exactly one of the two devices that `new` sets up, and an axis value
  -- that is passed on is in the range that its axis was given.
  pub main_events_taken :
      {Rect : Type 0} (rs : Rstar Rect Tree) (order : Iteration) (r : MainReport) (old : Previous)
      → r.lx < 256
      → r.ly < 256
      → r.rx < 256
      → r.ry < 256
      → All OneTakes (main_events order r (pressed_now rs r config) old)
  unfolding main_events pressed_now
  main_events_taken rs order r old a b c d =
      let now = pressed_now rs r config in
      let hats = (apply_actions_pressed r.buttons config.trigger_config (actions rs r config)).1 in
      All-append OneTakes _ _
        (key_events-OneTakes true (order.iter (difference now.buttons old.previous_buttons)))
        (All-append OneTakes _ _
          (key_events-OneTakes false (order.iter (difference old.previous_buttons now.buttons)))
          (All-append OneTakes _ _ (dpad_events-OneTakes _ now old hats) (
            All-append OneTakes (create_stick_events r) _ (create_stick_events-OneTakes r a b c d)
              (volume_events-OneTakes r.buttons))))
