-- ===== src/VirtualDevice/Linux/Report/Laws.antt =====
-- `send_report` as a whole: what the four readers see after it, and what a failed write leaves.
use vita_oxi_pad.Base.{
  ℕ, ◌≡◌, ◌∙◌, refl, ap, false, List, ◌++◌, Option, none, some, Result, ok, err, returns, get_elem?,
  replicate, zero, suc,
}
use vita_oxi_pad.Base.Int.{pos}
use vita_oxi_pad.Reports.{MainReport}
use vita_oxi_pad.VirtualDevice.Button.{Iteration}
use vita_oxi_pad.VirtualDevice.Touch.{Rstar}
use vita_oxi_pad.VirtualDevice.Config.{Config, TouchpadSource, front, rear}
use vita_oxi_pad.VirtualDevice.Floats.{Floats}
use vita_oxi_pad.VirtualDevice.Linux.Events.{InputEvent, applies}
use vita_oxi_pad.VirtualDevice.Linux.Buttons.{main_events, remember, Pressed}
use vita_oxi_pad.VirtualDevice.Linux.Buttons.Laws.{Synced}
use vita_oxi_pad.VirtualDevice.Linux.Report.{
  Handle, main, VitaDevice, Write, write_event_failed, create_motion_events, touchpad_writes,
  write_all, pressed_now, send_report, gamepad_writes, motion_writes, new_device,
}
use vita_oxi_pad.VirtualDevice.Linux.Report.Gamepad.{GamepadShows, main_events-GamepadShows}
use vita_oxi_pad.VirtualDevice.Linux.Report.Readers.{
  Readers, observe, IsValid, PadSynced, PadHolds, touchpad_writes-PadStep,
}

-- The readers agree with what the device remembers.
pub record InSync {Tree : Type 0} (d : VitaDevice Tree) (rd : Readers) : Type 0 where
  pub gamepad : Synced d.previous rd.gamepad
  pub pad : PadSynced d.config.touchpad_source d rd.pad

gamepad_written :
    (E : Type 0) (events : List InputEvent) (rd : Readers)
    → write_all {E = E} observe (gamepad_writes events) rd
      ≡ ok (record rd { gamepad = applies events rd.gamepad; keys = applies events rd.keys })
unfolding write_all
gamepad_written E events rd = refl

motion_written :
    (E : Type 0) (fl : Floats) (r : MainReport) (rd : Readers)
    → write_all {E = E} observe (motion_writes fl r) rd
      ≡ ok (record rd { motion = applies (create_motion_events fl r) rd.motion })
unfolding write_all
motion_written E fl r rd = refl

pad_remembered :
    {Tree : Type 0} (source : Option TouchpadSource) (now : Pressed) (d : VitaDevice Tree)
    (rd : Readers)
    → PadSynced source d rd.pad
    → PadSynced source (record d { previous = remember now d.previous }) rd.pad
pad_remembered none now d rd s = tt
pad_remembered (some front) now d rd s = s
pad_remembered (some rear) now d rd s = s

module _ {Rect Tree : Type 0} (rs : Rstar Rect Tree) (order : Iteration) (fl : Floats) where
  -- What a call of `send_report` gives when its writes succeed.
  pub record Reported (E : Type 0) (r : MainReport) (d : VitaDevice Tree) (rd : Readers)
      : Type 0 where
    pub after : VitaDevice Tree
    pub readers : Readers
    pub runs : send_report rs order fl {E = E} observe r d rd ≡ returns (ok readers, after)
    pub valid : IsValid after
    pub synced : InSync after readers
    pub same_config : after.config ≡ d.config
    pub gamepad : GamepadShows rs r d.config readers.gamepad
    pub pad : PadHolds d.config.touchpad_source r rd.pad readers.pad
    pub motion : readers.motion ≡ applies (create_motion_events fl r) rd.motion

  -- The order of the writes, where the first ones succeed.
  send_report_runs :
      {W E : Type 0} (write : Handle → List InputEvent → W → Result W E) (r : MainReport)
      (d after : VitaDevice Tree) (w w' : W) (touches : List Write)
      → let now = pressed_now rs r d.config in
        (write_all write (gamepad_writes (main_events order r now d.previous)) w ≡ ok w')
        → (touchpad_writes d.config.touchpad_source r
              (record d { previous = remember now d.previous })
            ≡ returns (touches, after))
        → send_report rs order fl write r d w
          ≡ returns (write_all write (touches ++ motion_writes fl r) w', after)
  unfolding send_report
  send_report_runs write r d after w w' touches first pads =
      rw (first, send_report) (rw (pads, send_report) refl)

  -- Where the device is valid and the readers agree with it, and no write fails, `send_report` does
  -- not panic and reports success; the device stays valid, the readers agree with it again, and its
  -- configuration is unchanged. The gamepad then shows exactly the buttons that are down or that a
  -- touch asks for, the hat where the last pad action or else the Vita's pad puts it, and the four
  -- stick axes; the touchpad holds the touches of the pad that it stands for, and is untouched if
  -- it stands for none; the motion device has had the report's motion events.
  pub send_report-Reported :
      (E : Type 0) (r : MainReport) (d : VitaDevice Tree) (rd : Readers)
      → IsValid d
      → InSync d rd
      → Reported E r d rd
  send_report-Reported E r d rd valid s =
      let now = pressed_now rs r d.config in
      let events = main_events order r now d.previous in
      let d' = record d { previous = remember now d.previous } in
      let rd' = record rd { gamepad = applies events rd.gamepad; keys = applies events rd.keys } in
      let shown = main_events-GamepadShows rs order r d.config d.previous rd.gamepad s.gamepad in
      let step =
        touchpad_writes-PadStep E d.config.touchpad_source r d' rd'
          (record { front_slots = valid.front_slots; rear_slots = valid.rear_slots })
          (pad_remembered d.config.touchpad_source now d rd s.pad) in
      record {
        after = step.after;
        readers = record rd' {
          pad = step.pad;
          motion = applies (create_motion_events fl r) rd.motion;
        };
        runs =
            send_report_runs observe r d step.after rd rd' step.writes (gamepad_written E events rd)
              step.runs
            ∙ ap (λ o. returns (o, step.after))
                (step.written (motion_writes fl r)
                  ∙ motion_written E fl r (record rd' { pad = step.pad }));
        valid = step.valid;
        synced = record {
          gamepad = rw step.same_previous shown.1;
          pad = rw step.same_config step.synced;
        };
        same_config = step.same_config;
        gamepad = shown.0;
        pad = step.holds;
        motion = refl;
      }

  -- If the first write fails, `send_report` gives its error, but the device already remembers the
  -- report's buttons and hat. The rest of it is unchanged.
  pub send_report_fails :
      {W E : Type 0} (write : Handle → List InputEvent → W → Result W E) (r : MainReport)
      (d : VitaDevice Tree) (w : W) (e : E)
      → write main (main_events order r (pressed_now rs r d.config) d.previous) w ≡ err e
      → send_report rs order fl write r d w
        ≡ returns (
          err (write_event_failed e),
          record d { previous = remember (pressed_now rs r d.config) d.previous },
        )
  unfolding send_report write_all
  send_report_fails write r d w e h = rw (h, send_report, write_all) refl

-- Readers that have seen nothing yet.
abbrev pub untouched : Readers
untouched = record {
  gamepad = record { keys = λ k. false; axes = λ a. pos 0 };
  keys = record { keys = λ k. false; axes = λ a. pos 0 };
  pad = record {
    current = 0;
    ids = λ j. none;
    xs = λ j. pos 0;
    ys = λ j. pos 0;
    pressures = λ j. pos 0;
    touching = false;
    finger = false;
  };
  motion = record { keys = λ k. false; axes = λ a. pos 0 };
}

replicate_none : (n j : ℕ) (o : Option ℕ) → get_elem? (replicate n none) j ≡ some o → none ≡ o
replicate_none zero j o e = cc
replicate_none (suc n) zero o e = cc
replicate_none (suc n) (suc j) o e = replicate_none n j o e

new_pad :
    {Tree : Type 0} (source : Option TouchpadSource) (config : Config Tree)
    → PadSynced source (new_device config) untouched.pad
unfolding new_device
new_pad none config = tt
new_pad (some front) config = (replicate_none 6, refl)
new_pad (some rear) config = (replicate_none 4, refl)

-- A new device is valid, and agrees with readers that have seen nothing, whatever its configuration.
pub new_device-InSync :
    {Tree : Type 0} (config : Config Tree)
    → IsValid (new_device config) × InSync (new_device config) untouched
unfolding new_device
new_device-InSync config = (
  record { front_slots = refl; rear_slots = refl },
  record {
    gamepad = record { buttons = λ b. refl; hat_x = refl; hat_y = refl };
    pad = new_pad config.touchpad_source config;
  },
)
