-- ===== src/VirtualDevice/Linux/Setup/Written.antt =====
-- What `send_report` of linux.rs writes for the touches, beside the touchpad that `new` has set up.
use vita_oxi_pad.Base.{
  ℕ, ◌+◌, ◌≤◌, ◌<◌, ◌≡◌, refl, true, List, [], ◌∷◌, Option, none, some, returns, arith, All,
}
use vita_oxi_pad.Reports.{MainReport, TouchReport}
use vita_oxi_pad.VirtualDevice.Config.{Config, TouchpadSource, front, rear}
use vita_oxi_pad.VirtualDevice.Linux.Events.{synchronize}
use vita_oxi_pad.VirtualDevice.Linux.Report.{VitaDevice, Write, touchpad, touchpad_writes}
use vita_oxi_pad.VirtualDevice.Linux.Report.Readers.{IsValid}
use vita_oxi_pad.VirtualDevice.Linux.Setup.{
  setup, main_setup, touchpad_setup, sensor_setup, keyboard_setup, touchpad_limits,
}
use vita_oxi_pad.VirtualDevice.Linux.Setup.Abilities.{made, takes}
use vita_oxi_pad.VirtualDevice.Linux.Setup.Touched.{Fits, PadTakes, create_touch_events-PadTakes}

-- A touch on a pad of this size, with an id and a force of 128 at most.
abbrev pub Within : (width height : ℕ) → TouchReport → Type 0
Within width height t = (t.x < width) × (t.y < height) × (t.id ≤ 128) × (t.force ≤ 128)

-- The touches of the pad that the touchpad stands for are within the Vita's pad.
abbrev pub OnVita : Option TouchpadSource → MainReport → Type 0
OnVita none r = Unit {0}
OnVita (some front) r = All (Within 1920 1087) r.front_touch.reports
OnVita (some rear) r = All (Within 1920 887) r.back_touch.reports

-- The device that a write goes to passes on each of its events.
abbrev pub Passed : {Tree : Type 0} → Config Tree → Write → Type 0
Passed config (handle, events) = All (λ e. takes (made config handle) e ≡ true) events

All-Within-Fits :
    (source : Option TouchpadSource) (width height : ℕ) (touches : List TouchReport)
    → width ≤ (touchpad_limits source).0 + 1
    → height ≤ (touchpad_limits source).1 + 1
    → All (Within width height) touches
    → All (Fits source) touches
All-Within-Fits source width height [] a b f = tt
All-Within-Fits source width height (t ∷ touches) a b (f, g) =
    ((omega arith, omega arith, f.2, f.3), All-Within-Fits source width height touches a b g)

module _ {Tree : Type 0} where
  synchronize-PadTakes : (config : Config Tree) → PadTakes config synchronize
  unfolding made setup main_setup touchpad_setup sensor_setup keyboard_setup
  synchronize-PadTakes config = refl

  -- What the touchpad's part of a report gives, and that its events are passed on.
  abbrev Written :
      (config : Config Tree) → Option TouchpadSource → MainReport → VitaDevice Tree → Type 0
  Written config source r d =
      (writes : List Write) × (after : VitaDevice Tree) × (touchpad_writes source r d
        ≡ returns (writes, after))
      × All (Passed config) writes

  touchpad_writes-Written :
      (config : Config Tree) (source : Option TouchpadSource) (r : MainReport) (d : VitaDevice Tree)
      → config.touchpad_source ≡ source
      → IsValid d
      → OnVita source r
      → Written config source r d
  unfolding touchpad_writes
  touchpad_writes-Written config none r d same valid on = ([], d, refl, tt)
  touchpad_writes-Written config (some front) r d same valid on =
      let (events, after, state, runs, passed) =
        create_touch_events-PadTakes config (some front) same r.front_touch.reports
          d.previous_front_touches d.touch_state valid.front_slots
          (All-Within-Fits (some front) 1920 1087 r.front_touch.reports (omega arith) (omega arith)
            on) in
      (
        (touchpad, events) ∷ (touchpad, synchronize ∷ []) ∷ [],
        record d { previous_front_touches = after; touch_state = state },
        rw (runs, touchpad_writes) refl,
        (passed, ((synchronize-PadTakes config, tt), tt)),
      )
  touchpad_writes-Written config (some rear) r d same valid on =
      let (events, after, state, runs, passed) =
        create_touch_events-PadTakes config (some rear) same r.back_touch.reports
          d.previous_rear_touches d.touch_state valid.rear_slots
          (All-Within-Fits (some rear) 1920 887 r.back_touch.reports (omega arith) (omega arith)
            on) in
      (
        (touchpad, events) ∷ (touchpad, synchronize ∷ []) ∷ [],
        record d { previous_rear_touches = after; touch_state = state },
        rw (runs, touchpad_writes) refl,
        (passed, ((synchronize-PadTakes config, tt), tt)),
      )

  -- With a valid device, for touches within the Vita's pad, 1920 by 1087 in front and 1920 by 887 at
  -- the rear, with ids and forces of 128 at most, the touchpad's part of `send_report` does not panic,
  -- and the touchpad that `new` has set up for the device's configuration passes on every event of its
  -- writes, with each slot, id, position and force in the range that its axis was given.
  pub touchpad_writes_taken :
      (r : MainReport) (d : VitaDevice Tree)
      → IsValid d
      → OnVita d.config.touchpad_source r
      → (writes : List Write) × (after : VitaDevice Tree) × (touchpad_writes
            d.config.touchpad_source r d
          ≡ returns (writes, after))
        × All (Passed d.config) writes
  touchpad_writes_taken r d valid on =
      touchpad_writes-Written d.config d.config.touchpad_source r d refl valid on
