-- ===== src/VirtualDevice/Linux/Report/Order.antt =====
-- `send_report` of linux.rs under two orders of iteration of the hash sets of buttons.
use vita_oxi_pad.Base.{◌≡◌, ◌∙◌, refl, sym, Result, Outcome, panics, returns, ◌++◌}
use vita_oxi_pad.Reports.{MainReport}
use vita_oxi_pad.VirtualDevice.Button.{Iteration}
use vita_oxi_pad.VirtualDevice.Touch.{Rstar}
use vita_oxi_pad.VirtualDevice.Floats.{Floats}
use vita_oxi_pad.VirtualDevice.Linux.Events.{View, applies}
use vita_oxi_pad.VirtualDevice.Linux.Buttons.{main_events, remember}
use vita_oxi_pad.VirtualDevice.Linux.Buttons.Order.{main_events_order}
use vita_oxi_pad.VirtualDevice.Linux.Report.{
  VitaDevice, WriteError, pressed_now, send_report, touchpad_writes, write_all, motion_writes,
}
use vita_oxi_pad.VirtualDevice.Linux.Report.Readers.{Readers, observe}

module _ {Rect Tree : Type 0} (rs : Rstar Rect Tree) (fl : Floats) (E : Type 0) where
  -- From the gamepad's writes on, by what the gamepad and the keyboard show then.
  abbrev from_views :
      MainReport
      → VitaDevice Tree
      → Readers
      → (gamepad keys : View) → Outcome (Result Readers (WriteError E) × VitaDevice Tree)
  from_views r d rd gamepad keys =
      elim (touchpad_writes d.config.touchpad_source r
        (record d { previous = remember (pressed_now rs r d.config) d.previous })) [
          | panics ↦ panics
          | returns (touches, d') ↦ returns (
            write_all observe (touches ++ motion_writes fl r)
                (record rd { gamepad = gamepad; keys = keys }),
            d',
          )
        ]

  send_report-from_views :
      (order : Iteration) (r : MainReport) (d : VitaDevice Tree) (rd : Readers)
      → let events = main_events order r (pressed_now rs r d.config) d.previous in
        send_report rs order fl {E = E} observe r d rd
        ≡ from_views r d rd (applies events rd.gamepad) (applies events rd.keys)
  unfolding send_report write_all
  send_report-from_views order r d rd = refl

  -- Whatever the order in which the sets of buttons iterate, a call gives the same result, leaves the
  -- same device, and the readers of all four devices see the same, if the writes succeed.
  pub send_report_order :
      (order order' : Iteration) (r : MainReport) (d : VitaDevice Tree) (rd : Readers)
      → send_report rs order fl {E = E} observe r d rd
        ≡ send_report rs order' fl {E = E} observe r d rd
  send_report_order order order' r d rd =
      let now = pressed_now rs r d.config in
      let gamepad = main_events_order order order' r now d.previous rd.gamepad in
      let keys = main_events_order order order' r now d.previous rd.keys in
      send_report-from_views order r d rd
      ∙ (λ i. from_views r d rd (gamepad i) (keys i))
      ∙ sym (send_report-from_views order' r d rd)
