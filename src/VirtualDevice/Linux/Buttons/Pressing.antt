-- ===== src/VirtualDevice/Linux/Buttons/Pressing.antt =====
-- Which buttons a report presses, and where its hat stands, once its touches have acted.
use vita_oxi_pad.Base.{◌≡◌, ◌∙◌, refl, Bool, false, ◌||◌, List, [], ◌∷◌, arith, ltb}
use vita_oxi_pad.Reports.{ButtonsData}
use vita_oxi_pad.VirtualDevice.Button.{Button, DpadDirection, count, eq_button, from_list}
use vita_oxi_pad.VirtualDevice.Utils.{
  TriggerConfig, compute_dpad_direction, get_pressed_buttons, dpad_direction_to_axis_values,
}
use vita_oxi_pad.VirtualDevice.Utils.Laws.{physical, count-get_pressed_buttons}
use vita_oxi_pad.VirtualDevice.Touch.{TouchAction, button, dpad}
use vita_oxi_pad.VirtualDevice.Linux.Buttons.{Pressed, apply_actions, pressed_by_buttons}

-- Some action is for this button.
abbrev pub asks : Button → List TouchAction → Bool
asks b [] = false
asks b (button a ∷ as') = eq_button a b || asks b as'
asks b (dpad _ ∷ as') = asks b as'

-- The direction of the last action for the pad, or else the given one.
abbrev pub last_direction : List TouchAction → DpadDirection → DpadDirection
last_direction [] d = d
last_direction (button _ ∷ as') d = last_direction as' d
last_direction (dpad d' ∷ as') d = last_direction as' d'

from_list-count : (bs : List Button) (b : Button) → from_list bs b ≡ ltb 0 (count b bs)
from_list-count [] b = refl
from_list-count (a ∷ bs) b = ground (arith, from_list-count bs b)

pub buttons-apply_actions :
    (as' : List TouchAction) (p : Pressed) (b : Button)
    → (apply_actions as' p).buttons b ≡ (p.buttons b || asks b as')
unfolding apply_actions
buttons-apply_actions [] p b = ground arith
buttons-apply_actions (button a ∷ as') p b = buttons-apply_actions as' _ b ∙ ground arith
buttons-apply_actions (dpad d ∷ as') p b = buttons-apply_actions as' _ b

hat-apply_actions :
    (as' : List TouchAction) (p : Pressed) (d : DpadDirection)
    → dpad_direction_to_axis_values d ≡ (p.hat_x, p.hat_y)
    → dpad_direction_to_axis_values (last_direction as' d)
      ≡ ((apply_actions as' p).hat_x, (apply_actions as' p).hat_y)
unfolding apply_actions
hat-apply_actions [] p d h = h
hat-apply_actions (button a ∷ as') p d h = hat-apply_actions as' _ d h
hat-apply_actions (dpad d' ∷ as') p d h = hat-apply_actions as' _ d' refl

-- After the touch actions a button is pressed if its Vita button is down or an action asks for it,
-- and not otherwise; the hat stands where the last pad action puts it, or else where the Vita's
-- pad does.
pub apply_actions_pressed :
    (r : ButtonsData) (config : TriggerConfig) (as' : List TouchAction)
    → let p = apply_actions as' (pressed_by_buttons r config) in
      ((b : Button) → p.buttons b ≡ (physical r config b || asks b as'))
      × (dpad_direction_to_axis_values (last_direction as' (compute_dpad_direction r))
          ≡ (p.hat_x, p.hat_y))
unfolding pressed_by_buttons
apply_actions_pressed r config as' = (
  λ b.
      buttons-apply_actions as' _ b
      ∙ ground (
        arith,
        from_list-count (get_pressed_buttons r config) b,
        count-get_pressed_buttons r config b,
      ),
  hat-apply_actions as' _ (compute_dpad_direction r) refl,
)
