-- ===== src/VirtualDevice/Linux/Buttons/Laws.antt =====
-- The gamepad part of `send_report` in linux.rs, as a reader of the main device sees it.
use vita_oxi_pad.Base.{
  ◌≡◌, ◌∙◌, refl, ap, Bool, true, false, List, [], ◌∷◌, ◌++◌, arith, ltb, if◌then◌else◌,
}
use vita_oxi_pad.Base.Int.{pos, eq_ℤ_iff}
use vita_oxi_pad.Reports.{MainReport}
use vita_oxi_pad.VirtualDevice.Button.{
  Button, ButtonSet, empty_set, count, discriminant-lt, difference, Iteration,
}
use vita_oxi_pad.VirtualDevice.Linux.Events.{
  InputEvent, map_button_to_ds4, key_code-map_button_to_ds4, View, applies, applies-append, hat0x,
  hat0y, x, y, rx, ry,
}
use vita_oxi_pad.VirtualDevice.Linux.Buttons.{
  Pressed, Previous, key_events, dpad_events, create_stick_events, volume_events, main_events,
  remember,
}

-- What a reader's view says of a virtual button.
abbrev pub shows : View → Button → Bool
shows v b = v.keys (map_button_to_ds4 b)

-- The view agrees with what the device remembers.
pub record Synced (d : Previous) (v : View) : Type 0 where
  pub buttons : (b : Button) → shows v b ≡ d.previous_buttons b
  pub hat_x : v.axes hat0x ≡ d.previous_hat_x
  pub hat_y : v.axes hat0y ≡ d.previous_hat_y

shows-key_events :
    (state : Bool) (bs : List Button) (v : View) (b : Button)
    → shows (applies (key_events state bs) v) b ≡ (if ltb 0 (count b bs) then state else shows v b)
unfolding key_events
shows-key_events state [] v b = refl
shows-key_events state (a ∷ bs) v b =
    shows-key_events state bs _ b
    ∙ rw (key_code-map_button_to_ds4 a, key_code-map_button_to_ds4 b) (ground arith)

axes-key_events :
    (state : Bool) (bs : List Button) (v : View) → (applies (key_events state bs) v).axes ≡ v.axes
unfolding key_events
axes-key_events state [] v = refl
axes-key_events state (a ∷ bs) v = axes-key_events state bs _

-- The reader's buttons after the presses and the releases.
shows_after :
    (order : Iteration) (now old : ButtonSet) (v : View) (b : Button)
    → shows v b ≡ old b
    → shows
        (applies
          (key_events false (order.iter (difference old now)))
          (applies (key_events true (order.iter (difference now old))) v))
        b
      ≡ now b
shows_after order now old v b h =
    let pressed = key_events true (order.iter (difference now old)) in
    shows-key_events false (order.iter (difference old now)) (applies pressed v) b
    ∙ ground (
      arith,
      shows-key_events true (order.iter (difference now old)) v b,
      order.count_iter (difference old now) b,
      order.count_iter (difference now old) b,
    )

-- The tail of the events: hat, sticks, volume keys.
abbrev pub tail_events : MainReport → Pressed → Previous → List InputEvent
tail_events r now old = dpad_events now old ++ (create_stick_events r ++ volume_events r.buttons)

tail_keys :
    (r : MainReport) (now : Pressed) (old : Previous) (v : View) (b : Button)
    → shows (applies (tail_events r now old) v) b ≡ shows v b
unfolding dpad_events create_stick_events volume_events
tail_keys r now old v b = ground (arith, key_code-map_button_to_ds4 b, discriminant-lt b)

tail_axes :
    (r : MainReport) (now : Pressed) (old : Previous) (v : View)
    → v.axes hat0x ≡ old.previous_hat_x
    → v.axes hat0y ≡ old.previous_hat_y
    → let w = applies (tail_events r now old) v in
      (w.axes hat0x ≡ now.hat_x)
      × (w.axes hat0y ≡ now.hat_y)
      × (w.axes x ≡ pos r.lx)
      × (w.axes y ≡ pos r.ly)
      × (w.axes rx ≡ pos r.rx)
      × (w.axes ry ≡ pos r.ry)
unfolding dpad_events create_stick_events volume_events
tail_axes r now old v hx hy =
    ground (arith, eq_ℤ_iff now.hat_x old.previous_hat_x, eq_ℤ_iff now.hat_y old.previous_hat_y)

-- A device and a reader start in agreement: nothing pressed, the hat centred.
abbrev pub at_rest : Previous
at_rest = record { previous_buttons = empty_set; previous_hat_x = pos 0; previous_hat_y = pos 0 }

-- The view after the presses and the releases.
abbrev pub after_keys : Iteration → Pressed → Previous → View → View
after_keys order now old v =
    applies (key_events false (order.iter (difference old.previous_buttons now.buttons)))
      (applies (key_events true (order.iter (difference now.buttons old.previous_buttons))) v)

pub axes_after :
    (order : Iteration) (now : Pressed) (old : Previous) (v : View)
    → (after_keys order now old v).axes ≡ v.axes
axes_after order now old v =
    axes-key_events false (order.iter (difference old.previous_buttons now.buttons)) _
    ∙ axes-key_events true (order.iter (difference now.buttons old.previous_buttons)) v

hat0x_after :
    (order : Iteration) (now : Pressed) (old : Previous) (v : View)
    → (after_keys order now old v).axes hat0x ≡ v.axes hat0x
hat0x_after order now old v = ap (λ f. f hat0x) (axes_after order now old v)

hat0y_after :
    (order : Iteration) (now : Pressed) (old : Previous) (v : View)
    → (after_keys order now old v).axes hat0y ≡ v.axes hat0y
hat0y_after order now old v = ap (λ f. f hat0y) (axes_after order now old v)

pub applies-main_events :
    (order : Iteration) (r : MainReport) (now : Pressed) (old : Previous) (v : View)
    → applies (main_events order r now old) v
      ≡ applies (tail_events r now old) (after_keys order now old v)
unfolding main_events
applies-main_events order r now old v =
    let presses = key_events true (order.iter (difference now.buttons old.previous_buttons)) in
    let releases = key_events false (order.iter (difference old.previous_buttons now.buttons)) in
    applies-append presses (releases ++ tail_events r now old) v
    ∙ applies-append releases (tail_events r now old) (applies presses v)

Synced-remember :
    (now : Pressed) (old : Previous) (w : View)
    → ((b : Button) → shows w b ≡ now.buttons b)
    → w.axes hat0x ≡ now.hat_x
    → w.axes hat0y ≡ now.hat_y
    → Synced (remember now old) w
unfolding remember
Synced-remember now old w hb hx hy = record {
  buttons = hb;
  hat_x = ground (arith, eq_ℤ_iff now.hat_x old.previous_hat_x);
  hat_y = ground (arith, eq_ℤ_iff now.hat_y old.previous_hat_y);
}

-- A reader that agrees with what the device remembers sees, after the events of a report, exactly
-- the pressed buttons down, the hat and the four stick axes at the report's values, and agrees
-- again with what the device then remembers. The order in which the sets iterate does not matter.
pub main_events_view :
    (order : Iteration) (r : MainReport) (now : Pressed) (old : Previous) (v : View)
    → Synced old v
    → let w = applies (main_events order r now old) v in
      ((b : Button) → shows w b ≡ now.buttons b)
      × (w.axes hat0x ≡ now.hat_x)
      × (w.axes hat0y ≡ now.hat_y)
      × (w.axes x ≡ pos r.lx)
      × (w.axes y ≡ pos r.ly)
      × (w.axes rx ≡ pos r.rx)
      × (w.axes ry ≡ pos r.ry)
      × Synced (remember now old) w
main_events_view order r now old v s =
    let w = after_keys order now old v in
    let axes =
      tail_axes r now old w (hat0x_after order now old v ∙ s.hat_x)
        (hat0y_after order now old v ∙ s.hat_y) in
    let buttons = λ (b : Button).
      tail_keys r now old w b
      ∙ shows_after order now.buttons old.previous_buttons v b (s.buttons b) in
    rw (applies-main_events order r now old v) (
      buttons,
      axes.0,
      axes.1,
      axes.2,
      axes.3,
      axes.4,
      axes.5,
      Synced-remember now old _ buttons axes.0 axes.1,
    )
