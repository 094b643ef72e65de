-- ===== src/VirtualDevice/Linux/Buttons.antt =====
-- The first part of `send_report` in linux.rs: buttons, hat, sticks and volume keys.
pub mod Laws
pub mod Pressing
pub mod Order
use vita_oxi_pad.Base.{ℕ, ◌+◌, Bool, true, false, not, List, [], ◌∷◌, ◌++◌, map, if◌then◌else◌}
use vita_oxi_pad.Base.Int.{ℤ, pos, eq_ℤ}
use vita_oxi_pad.Reports.{MainReport, ButtonsData}
use vita_oxi_pad.VirtualDevice.Button.{
  Button, DpadDirection, ButtonSet, insert, from_list, difference, Iteration,
}
use vita_oxi_pad.VirtualDevice.Utils.{
  TriggerConfig, compute_dpad_direction, get_pressed_buttons, dpad_direction_to_axis_values,
}
use vita_oxi_pad.VirtualDevice.Touch.{TouchAction, button, dpad}
use vita_oxi_pad.VirtualDevice.Linux.Events.{
  InputEvent, key, absolute, map_button_to_ds4, hat0x, hat0y, x, y, rx, ry, volume_up, volume_down,
}

-- `pressed_buttons_set`, `hat_x_value` and `hat_y_value`.
pub record Pressed : Type 0 where
  pub buttons : ButtonSet
  pub hat_x : ℤ
  pub hat_y : ℤ

-- One round of the loop over the touch actions.
unfoldable pub apply_action : TouchAction → Pressed → Pressed
apply_action (button b) p = record p { buttons = insert b p.buttons }
apply_action (dpad direction) p =
    let (hx, hy) = dpad_direction_to_axis_values direction in record p { hat_x = hx; hat_y = hy }

unfoldable pub apply_actions : List TouchAction → Pressed → Pressed
unfolding apply_action
apply_actions [] p = p
apply_actions (a ∷ as') p = apply_actions as' (apply_action a p)

-- What is pressed before the touches are looked at.
unfoldable pub pressed_by_buttons : ButtonsData → TriggerConfig → Pressed
pressed_by_buttons b config =
    let (hx, hy) = dpad_direction_to_axis_values (compute_dpad_direction b) in
    record { buttons = from_list (get_pressed_buttons b config); hat_x = hx; hat_y = hy }

-- The fields of the device that this part reads and writes.
pub record Previous : Type 0 where
  pub previous_buttons : ButtonSet
  pub previous_hat_x : ℤ
  pub previous_hat_y : ℤ

unfoldable pub key_events : Bool → List Button → List InputEvent
key_events state = map (λ b. key (map_button_to_ds4 b) state)

unfoldable pub dpad_events : Pressed → Previous → List InputEvent
dpad_events now old =
    (if not (eq_ℤ now.hat_x old.previous_hat_x) then absolute hat0x now.hat_x ∷ [] else [])
    ++ (if not (eq_ℤ now.hat_y old.previous_hat_y) then absolute hat0y now.hat_y ∷ [] else [])

-- After it has run: a value that is equal is not written, and is the same.
unfoldable pub remember : Pressed → Previous → Previous
remember now old = record {
  previous_buttons = now.buttons;
  previous_hat_x =
      if not (eq_ℤ now.hat_x old.previous_hat_x) then now.hat_x else old.previous_hat_x;
  previous_hat_y =
      if not (eq_ℤ now.hat_y old.previous_hat_y) then now.hat_y else old.previous_hat_y;
}

unfoldable pub create_stick_events : MainReport → List InputEvent
create_stick_events r =
    absolute x (pos r.lx)
    ∷ absolute y (pos r.ly)
    ∷ absolute rx (pos r.rx)
    ∷ absolute ry (pos r.ry)
    ∷ []

unfoldable pub volume_events : ButtonsData → List InputEvent
volume_events b =
    (if b.vol_up then key volume_up true ∷ key volume_up false ∷ [] else [])
    ++ (if b.vol_down then key volume_down true ∷ key volume_down false ∷ [] else [])

module _ (order : Iteration) where
  -- The events that are written to the main device and to the keyboard.
  unfoldable pub main_events : MainReport → Pressed → Previous → List InputEvent
  unfolding key_events dpad_events create_stick_events volume_events
  main_events r now old =
      key_events true (order.iter (difference now.buttons old.previous_buttons))
      ++ (key_events false (order.iter (difference old.previous_buttons now.buttons))
          ++ (dpad_events now old ++ (create_stick_events r ++ volume_events r.buttons)))
