-- ===== src/VirtualDevice/Linux/Report/Lost.antt =====
-- `send_report` of linux.rs after a call whose first write has failed.
use vita_oxi_pad.Base.{
  ◌≡◌, refl, true, not, List, [], ◌∷◌, ◌++◌, Result, err, returns, arith, if◌then◌else◌,
}
use vita_oxi_pad.Base.Int.{ℤ, eq_ℤ, eq_ℤ_iff}
use vita_oxi_pad.Reports.{MainReport}
use vita_oxi_pad.VirtualDevice.Button.{
  Button, ButtonSet, count, eq_button_iff, difference, Iteration,
}
use vita_oxi_pad.VirtualDevice.Touch.{Rstar}
use vita_oxi_pad.VirtualDevice.Floats.{Floats}
use vita_oxi_pad.VirtualDevice.Linux.Events.{InputEvent}
use vita_oxi_pad.VirtualDevice.Linux.Buttons.{
  Pressed, Previous, key_events, dpad_events, create_stick_events, volume_events, main_events,
  remember,
}
use vita_oxi_pad.VirtualDevice.Linux.Report.{
  Handle, main, VitaDevice, write_event_failed, pressed_now, send_report,
}
use vita_oxi_pad.VirtualDevice.Linux.Report.Laws.{send_report_fails}

count_none : (bs : List Button) → ((b : Button) → count b bs ≡ 0) → bs ≡ []
count_none [] h = refl
count_none (b ∷ bs) h = absurd (ground (arith, h b, eq_button_iff b b))

-- No button is in a set and not in it.
iter-difference : (order : Iteration) (s : ButtonSet) → order.iter (difference s s) ≡ []
iter-difference order s =
    count_none (order.iter (difference s s))
      (λ b. ground (arith, order.count_iter (difference s s) b))

eq_ℤ-remembered : (v old : ℤ) → eq_ℤ v (if not (eq_ℤ v old) then v else old) ≡ true
eq_ℤ-remembered v old = ground (arith, eq_ℤ_iff v v, eq_ℤ_iff v old)

dpad_events-remember : (now : Pressed) (old : Previous) → dpad_events now (remember now old) ≡ []
unfolding dpad_events remember
dpad_events-remember now old =
    rw (eq_ℤ-remembered now.hat_x old.previous_hat_x, eq_ℤ-remembered now.hat_y old.previous_hat_y)
      refl

main_events-remember :
    (order : Iteration) (r : MainReport) (now : Pressed) (old : Previous)
    → main_events order r now (remember now old) ≡ create_stick_events r ++ volume_events r.buttons
unfolding main_events key_events remember
main_events-remember order r now old =
    rw (iter-difference order now.buttons, dpad_events-remember now old) refl

module _ {Rect Tree : Type 0} (rs : Rstar Rect Tree) (order : Iteration) (fl : Floats) where
  -- If the first write of `send_report` fails, the call gives its error, and it leaves a device for
  -- which the gamepad events of the same report, sent again, are those of the sticks and the volume
  -- keys alone: no press, no release and no hat value.
  pub send_report_loses :
      {W E : Type 0} (write : Handle → List InputEvent → W → Result W E) (r : MainReport)
      (d : VitaDevice Tree) (w : W) (e : E)
      → write main (main_events order r (pressed_now rs r d.config) d.previous) w ≡ err e
      → (d' : VitaDevice Tree) × (send_report rs order fl write r d w
          ≡ returns (err (write_event_failed e), d'))
        × (main_events order r (pressed_now rs r d'.config) d'.previous
            ≡ create_stick_events r ++ volume_events r.buttons)
  send_report_loses write r d w e h =
      let now = pressed_now rs r d.config in
      (
        record d { previous = remember now d.previous },
        send_report_fails rs order fl write r d w e h,
        main_events-remember order r now d.previous,
      )
