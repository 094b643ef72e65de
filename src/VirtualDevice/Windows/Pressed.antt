-- ===== src/VirtualDevice/Windows/Pressed.antt =====
-- The buttons that `send_report` of windows.rs reports, beside those of linux.rs.
use vita_oxi_pad.Base.{
  ℕ, ◌≡◌, ◌∙◌, refl, sym, ap, Bool, false, ◌||◌, List, [], ◌∷◌, ◌++◌, Option, none, some, arith,
  if◌then◌else◌, Option-cases, inl, inr,
}
use vita_oxi_pad.Reports.{MainReport, TouchReport}
use vita_oxi_pad.VirtualDevice.Button.{Button, DpadDirection, eq_button, from_list}
use vita_oxi_pad.VirtualDevice.Utils.{
  dpad_direction_to_axis_values, compute_dpad_direction, get_pressed_buttons,
}
use vita_oxi_pad.VirtualDevice.Touch.{Rstar, TouchAction, button, dpad}
use vita_oxi_pad.VirtualDevice.Config.{
  Config, TouchConfig, zones, touchpad, action_at, push_actions, process_touch_reports,
}
use vita_oxi_pad.VirtualDevice.Linux.Buttons.{pressed_by_buttons}
use vita_oxi_pad.VirtualDevice.Linux.Buttons.Pressing.{
  asks, last_direction, buttons-apply_actions, apply_actions_pressed,
}
use vita_oxi_pad.VirtualDevice.Linux.Report.{pressed_now}
use vita_oxi_pad.VirtualDevice.Linux.Report.Gamepad.{actions}
use vita_oxi_pad.VirtualDevice.Windows.Vigem.{VigemDpadDirection, Ds4Buttons}
use vita_oxi_pad.VirtualDevice.Windows.Report.{
  map_dpad_direction_to_ds4, button_mask, press_all, press_action, trigger_power, press_touches,
  press_touch_reports, report_buttons,
}

abbrev pub is_ps : Button → Bool
is_ps b = eq_button Button.ps_button b

-- What vigem_client documents of the mask of the buttons: each button but the PS button is a bit of
-- its own, which `PS_HOME` has not; the lowest four bits, in which no button is, are the pad.
pub record Bits {B : Type 0} (ds4 : Ds4Buttons B) : Type 0 where
  pub has : B → ℕ → Bool
  pub pad : B → VigemDpadDirection
  pub has_new : (b : Button) → is_ps b ≡ false → has ds4.new (button_mask ds4 b) ≡ false
  pub has_bit_or :
      (m : B) (a b : Button)
      → is_ps b ≡ false
      → has (ds4.bit_or m (button_mask ds4 a)) (button_mask ds4 b)
        ≡ (eq_button a b || has m (button_mask ds4 b))
  pub has_dpad :
      (m : B) (d : VigemDpadDirection) (b : Button)
      → is_ps b ≡ false
      → has (ds4.dpad m d) (button_mask ds4 b) ≡ has m (button_mask ds4 b)
  pub pad_bit_or :
      (m : B) (a : Button) → is_ps a ≡ false → pad (ds4.bit_or m (button_mask ds4 a)) ≡ pad m
  pub pad_dpad : (m : B) (d : VigemDpadDirection) → pad (ds4.dpad m d) ≡ d
  pub eq_bit_or :
      (m : B) (b : Button)
      → is_ps b ≡ false
      → ds4.eq (ds4.bit_or m (button_mask ds4 b)) m ≡ has m (button_mask ds4 b)

module _ {B : Type 0} (ds4 : Ds4Buttons B) where
  -- The actions in a row.
  abbrev pub press_actions : List TouchAction → B → B
  press_actions [] m = m
  press_actions (a ∷ as') m = press_actions as' (press_action ds4 a m)

  press_actions-append :
      (as' bs : List TouchAction) (m : B)
      → press_actions (as' ++ bs) m ≡ press_actions bs (press_actions as' m)
  press_actions-append [] bs m = refl
  press_actions-append (a ∷ as') bs m = press_actions-append as' bs (press_action ds4 a m)

module _ {Rect Tree B : Type 0} (rs : Rstar Rect Tree) (ds4 : Ds4Buttons B) where
  press_touches-push_actions :
      (tree : Tree) (touches : List TouchReport) (m : B)
      → press_touches rs ds4 tree touches m ≡ press_actions ds4 (push_actions rs tree touches) m
  unfolding press_touches push_actions
  press_touches-push_actions tree [] m = refl
  press_touches-push_actions tree (t ∷ touches) m = elim (Option-cases (action_at rs tree t)) [
    | inl e ↦ rw (e, push_actions) (press_touches-push_actions tree touches m)
    | inr (a, e) ↦
        rw (e, push_actions) (press_touches-push_actions tree touches (press_action ds4 a m))
  ]

  press_touch_reports-actions :
      (touches : List TouchReport) (config : Option (TouchConfig Tree)) (m : B)
      → press_touch_reports rs ds4 touches config m
        ≡ press_actions ds4 (process_touch_reports rs touches config) m
  unfolding press_touch_reports process_touch_reports
  press_touch_reports-actions touches none m = refl
  press_touch_reports-actions touches (some touchpad) m = refl
  press_touch_reports-actions touches (some (zones tree)) m =
      press_touches-push_actions tree touches m

  report_buttons-actions :
      (r : MainReport) (config : Config Tree)
      → report_buttons rs ds4 r config
        ≡ press_actions ds4 (actions rs r config) (
            press_all ds4
              (get_pressed_buttons r.buttons config.trigger_config)
              (ds4.dpad ds4.new (map_dpad_direction_to_ds4 (compute_dpad_direction r.buttons))))
  unfolding report_buttons
  report_buttons-actions r config =
      press_touch_reports-actions r.back_touch.reports config.rear_touch_config _
      ∙ ap
          (press_actions ds4
            (process_touch_reports rs r.back_touch.reports config.rear_touch_config))
          (press_touch_reports-actions r.front_touch.reports config.front_touch_config _)
      ∙ sym (
          press_actions-append ds4
            (process_touch_reports rs r.front_touch.reports config.front_touch_config)
            (process_touch_reports rs r.back_touch.reports config.rear_touch_config) _)

module _ {B : Type 0} (ds4 : Ds4Buttons B) (bits : Bits ds4) where
  has-press_all :
      (bs : List Button) (m : B) (b : Button)
      → is_ps b ≡ false
      → bits.has (press_all ds4 bs m) (button_mask ds4 b)
        ≡ (from_list bs b || bits.has m (button_mask ds4 b))
  unfolding press_all
  has-press_all [] m b h = refl
  has-press_all (a ∷ bs) m b h =
      has-press_all bs (ds4.bit_or m (button_mask ds4 a)) b h
      ∙ ground (arith, bits.has_bit_or m a b h)

  has-press_actions :
      (as' : List TouchAction) (m : B) (b : Button)
      → is_ps b ≡ false
      → bits.has (press_actions ds4 as' m) (button_mask ds4 b)
        ≡ (asks b as' || bits.has m (button_mask ds4 b))
  unfolding press_action
  has-press_actions [] m b h = refl
  has-press_actions (button a ∷ as') m b h =
      has-press_actions as' (ds4.bit_or m (button_mask ds4 a)) b h
      ∙ ground (arith, bits.has_bit_or m a b h)
  has-press_actions (dpad d ∷ as') m b h =
      has-press_actions as' (ds4.dpad m (map_dpad_direction_to_ds4 d)) b h
      ∙ ground (arith, bits.has_dpad m (map_dpad_direction_to_ds4 d) b h)

  pad-press_all :
      (bs : List Button) (m : B)
      → from_list bs Button.ps_button ≡ false
      → bits.pad (press_all ds4 bs m) ≡ bits.pad m
  unfolding press_all
  pad-press_all [] m h = refl
  pad-press_all (a ∷ bs) m h =
      pad-press_all bs (ds4.bit_or m (button_mask ds4 a)) (ground arith)
      ∙ bits.pad_bit_or m a (ground arith)

  pad-press_actions :
      (as' : List TouchAction) (m : B) (d : DpadDirection)
      → asks Button.ps_button as' ≡ false
      → bits.pad m ≡ map_dpad_direction_to_ds4 d
      → bits.pad (press_actions ds4 as' m) ≡ map_dpad_direction_to_ds4 (last_direction as' d)
  unfolding press_action
  pad-press_actions [] m d h e = e
  pad-press_actions (button a ∷ as') m d h e =
      pad-press_actions as' (ds4.bit_or m (button_mask ds4 a)) d (ground arith)
        (bits.pad_bit_or m a (ground arith) ∙ e)
  pad-press_actions (dpad d' ∷ as') m d h e =
      pad-press_actions as' (ds4.dpad m (map_dpad_direction_to_ds4 d')) d' h
        (bits.pad_dpad m (map_dpad_direction_to_ds4 d'))

module _ {Rect Tree B : Type 0} (rs : Rstar Rect Tree) (ds4 : Ds4Buttons B) (bits : Bits ds4) where
  pressed_now_lem :
      (r : MainReport) (config : Config Tree) (b : Button)
      → (pressed_now rs r config).buttons b ≡ (
          from_list (get_pressed_buttons r.buttons config.trigger_config) b
          || asks b (actions rs r config))
  unfolding pressed_now pressed_by_buttons
  pressed_now_lem r config b = buttons-apply_actions (actions rs r config) _ b

  -- Given the mask's documented bits, the Windows device reports a button other than the PS button as
  -- pressed exactly if the Linux device presses it, for the same report and configuration.
  pub report_buttons_agree :
      (r : MainReport) (config : Config Tree) (b : Button)
      → is_ps b ≡ false
      → bits.has (report_buttons rs ds4 r config) (button_mask ds4 b)
        ≡ (pressed_now rs r config).buttons b
  report_buttons_agree r config b h =
      let bs = get_pressed_buttons r.buttons config.trigger_config in
      let direction = map_dpad_direction_to_ds4 (compute_dpad_direction r.buttons) in
      ap (λ m. bits.has m (button_mask ds4 b)) (report_buttons-actions rs ds4 r config)
      ∙ has-press_actions ds4 bits (actions rs r config) _ b h
      ∙ ground (
        arith,
        has-press_all ds4 bits bs (ds4.dpad ds4.new direction) b h,
        bits.has_dpad ds4.new direction b h,
        bits.has_new b h,
        pressed_now_lem r config b,
      )

  -- Given the mask's documented bits, when the PS button is neither down nor asked for by a touch, the
  -- Windows device reports the pad in the direction of the last pad action of a touch, or else in the
  -- Vita's, and the Linux device puts the hat at the axis values of that same direction.
  pub report_buttons_pad :
      (r : MainReport) (config : Config Tree)
      → (pressed_now rs r config).buttons Button.ps_button ≡ false
      → let direction = last_direction (actions rs r config) (compute_dpad_direction r.buttons) in
        let now = pressed_now rs r config in
        (bits.pad (report_buttons rs ds4 r config) ≡ map_dpad_direction_to_ds4 direction)
        × (dpad_direction_to_axis_values direction ≡ (now.hat_x, now.hat_y))
  unfolding pressed_now
  report_buttons_pad r config h =
      let bs = get_pressed_buttons r.buttons config.trigger_config in
      let direction = map_dpad_direction_to_ds4 (compute_dpad_direction r.buttons) in
      let ps = pressed_now_lem r config Button.ps_button in
      (
        ap bits.pad (report_buttons-actions rs ds4 r config)
            ∙ pad-press_actions ds4 bits (actions rs r config) _ (compute_dpad_direction r.buttons)
                (ground (arith, ps))
                (pad-press_all ds4 bits bs (ds4.dpad ds4.new direction) (ground (arith, ps))
                  ∙ bits.pad_dpad ds4.new direction),
        (apply_actions_pressed r.buttons config.trigger_config (actions rs r config)).1,
      )

  pub trigger_power_lem :
      (r : MainReport) (config : Config Tree) (b : Button)
      → is_ps b ≡ false
      → trigger_power ds4 (button_mask ds4 b) (report_buttons rs ds4 r config)
        ≡ (if (pressed_now rs r config).buttons b then 255 else 0)
  unfolding trigger_power
  trigger_power_lem r config b h = ground (
    arith,
    bits.eq_bit_or (report_buttons rs ds4 r config) b h,
    report_buttons_agree r config b h,
  )
