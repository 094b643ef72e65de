-- ===== src/VirtualDevice/Linux/Setup/Touched.antt =====
-- The touchpad and the motion device of `new` in linux.rs, beside what `send_report` writes to them.
use vita_oxi_pad.Base.{
  ℕ, zero, suc, ◌+◌, ◌≤◌, ◌<◌, ◌≡◌, ◌∙◌, refl, subst, Bool, true, false, List, [], ◌∷◌, Option,
  none, some, panics, returns, arith, All, All-append, All-if, leb, get_elem?, set, Option-cases,
  length, Bool-cases, inl, inr,
}
use vita_oxi_pad.Base.Int.{ℤ, pos, negsuc, ◌≤ℤ◌}
use vita_oxi_pad.NetProtocol.{F32}
use vita_oxi_pad.Reports.{MainReport, TouchReport}
use vita_oxi_pad.VirtualDevice.Config.{Config, TouchpadSource, front, rear}
use vita_oxi_pad.VirtualDevice.Floats.{Floats, f32_to_i16}
use vita_oxi_pad.VirtualDevice.Linux.Events.{InputEvent, absolute, x, y, z, rx, ry, rz}
use vita_oxi_pad.VirtualDevice.Linux.Touch.{
  Slots, Run, push, release_slot, reset_slots, slot_events, update_slots, any_touch_active,
  touch_button_events, create_touch_events,
}
use vita_oxi_pad.VirtualDevice.Linux.Touch.View.{Contacts, feels, Agree}
use vita_oxi_pad.VirtualDevice.Linux.Touch.Reset.{ended, step_slots, reset_slots-Resets}
use vita_oxi_pad.VirtualDevice.Linux.Touch.Update.{update_slots-Updates}
use vita_oxi_pad.VirtualDevice.Linux.Touch.Laws.{create_touch_events_run}
use vita_oxi_pad.VirtualDevice.Linux.Report.{touchpad, sensor, create_motion_events}
use vita_oxi_pad.VirtualDevice.Linux.Setup.{
  setup, main_setup, touchpad_setup, sensor_setup, keyboard_setup, touchpad_limits,
}
use vita_oxi_pad.VirtualDevice.Linux.Setup.Abilities.{made, takes}

-- A report that the ranges of the touchpad have room for.
abbrev pub Fits : Option TouchpadSource → TouchReport → Type 0
Fits source t =
    (t.x ≤ (touchpad_limits source).0)
    × (t.y ≤ (touchpad_limits source).1)
    × (t.id ≤ 128)
    × (t.force ≤ 128)

module _ {Tree : Type 0} (config : Config Tree) where
  abbrev pub PadTakes : InputEvent → Type 0
  PadTakes e = takes (made config touchpad) e ≡ true

  slot-PadTakes :
      (source : Option TouchpadSource) (slot : ℕ)
      → config.touchpad_source ≡ source
      → slot < (touchpad_limits source).2
      → All PadTakes (release_slot slot)
  unfolding made setup main_setup touchpad_setup sensor_setup keyboard_setup release_slot
  slot-PadTakes none slot e h = ground arith
  slot-PadTakes (some front) slot e h = ground arith
  slot-PadTakes (some rear) slot e h = ground arith

  touch-PadTakes :
      (source : Option TouchpadSource) (slot : ℕ) (t : TouchReport)
      → config.touchpad_source ≡ source
      → slot < (touchpad_limits source).2
      → Fits source t
      → All PadTakes (slot_events slot t)
  unfolding made setup main_setup touchpad_setup sensor_setup keyboard_setup slot_events
  touch-PadTakes none slot t e h f = ground arith
  touch-PadTakes (some front) slot t e h f = ground arith
  touch-PadTakes (some rear) slot t e h f = ground arith

  -- The events of a loop that has run.
  abbrev RunTakes : Run → Type 0
  RunTakes panics = Unit {0}
  RunTakes (returns (es, slots)) = All PadTakes es

  push-RunTakes :
      (es : List InputEvent) (r : Run) → All PadTakes es → RunTakes r → RunTakes (push es r)
  push-RunTakes es panics h q = tt
  push-RunTakes es (returns (fs, slots)) h q = All-append PadTakes es fs h q

  reset_slots-RunTakes :
      (source : Option TouchpadSource) (same : config.touchpad_source ≡ source) (rounds slot : ℕ)
      (touches : List TouchReport) (slots : Slots)
      → slot + rounds ≤ (touchpad_limits source).2
      → RunTakes (reset_slots rounds slot touches slots)
  unfolding reset_slots
  reset_slots-RunTakes source same zero slot touches slots h = tt
  reset_slots-RunTakes source same (suc rounds) slot touches slots h =
      elim (Option-cases (get_elem? slots slot)) [
        | inl e ↦ rw (e, reset_slots, RunTakes) tt
        | inr (o, e) ↦
            rw (e, reset_slots)
              (push-RunTakes _ _
                (All-if PadTakes (ended slot touches o) (release_slot slot) []
                  (slot-PadTakes source slot same (omega arith)) tt)
                (reset_slots-RunTakes source same rounds (suc slot) touches
                  (step_slots slot touches o slots) (omega arith)))
      ]

  update_slots-RunTakes :
      (source : Option TouchpadSource) (same : config.touchpad_source ≡ source) (slot : ℕ)
      (touches : List TouchReport) (slots : Slots)
      → All (Fits source) touches
      → RunTakes (update_slots (touchpad_limits source).2 slot touches slots)
  unfolding update_slots
  update_slots-RunTakes source same slot [] slots f = tt
  update_slots-RunTakes source same slot (t ∷ touches) slots f =
      let later =
        update_slots-RunTakes source same (suc slot) touches (set slots slot (some t.id)) f.1 in
      elim (Bool-cases (leb (touchpad_limits source).2 slot)) [
        | inl e ↦ rw e tt
        | inr e ↦ elim (Option-cases (get_elem? slots slot)) [
          | inl n ↦ rw (e, n) tt
          | inr (o, n) ↦
              rw (e, n)
                (push-RunTakes (slot_events slot t) _
                  (touch-PadTakes source slot t same (ground arith) f.0) later)
        ]
      ]

  buttons-PadTakes : (active state : Bool) → All PadTakes (touch_button_events active state).0
  unfolding made setup main_setup touchpad_setup sensor_setup keyboard_setup touch_button_events
  buttons-PadTakes true true = tt
  buttons-PadTakes true false = (refl, (refl, tt))
  buttons-PadTakes false true = (refl, (refl, tt))
  buttons-PadTakes false false = tt

  -- What a reader that agrees with the slots sees.
  abbrev seen : Slots → Bool → Contacts
  seen slots state = record {
    current = 0;
    ids = λ j. elim (get_elem? slots j) [ none ↦ none | some o ↦ o ];
    xs = λ j. pos 0;
    ys = λ j. pos 0;
    pressures = λ j. pos 0;
    touching = state;
    finger = false;
  }

  seen-Agree : (slots : Slots) (state : Bool) → Agree slots (seen slots state)
  seen-Agree slots state j o e = rw (e, seen) refl

  pub create_touch_events-PadTakes :
      (source : Option TouchpadSource) (same : config.touchpad_source ≡ source)
      (touches : List TouchReport) (slots : Slots) (state : Bool)
      → length slots ≡ (touchpad_limits source).2
      → All (Fits source) touches
      → (events : List InputEvent) × (after : Slots) × (state' : Bool) × (create_touch_events
            touches slots
            (touchpad_limits source).2
            state
          ≡ returns (events, after, state'))
        × All PadTakes events
  create_touch_events-PadTakes source same touches slots state h f =
      let max_slots = (touchpad_limits source).2 in
      let first =
        reset_slots-Resets max_slots 0 touches slots (seen slots state) (omega arith)
          (seen-Agree slots state) in
      let second =
        update_slots-Updates max_slots 0 touches first.after (feels first.events (seen slots state))
          (first.same_length ∙ h) first.agrees in
      let resets =
        subst RunTakes first.runs
          (reset_slots-RunTakes source same max_slots 0 touches slots (omega arith)) in
      let updates =
        subst RunTakes second.runs (update_slots-RunTakes source same 0 touches first.after f) in
      let active = any_touch_active max_slots 0 touches in
      (
        _,
        _,
        _,
        create_touch_events_run touches slots first.after second.after max_slots state first.events
            second.events first.runs second.runs,
        All-append PadTakes first.events _ resets
            (All-append PadTakes second.events _ updates (buttons-PadTakes active state)),
      )

  abbrev pub SensorTakes : InputEvent → Type 0
  SensorTakes e = takes (made config sensor) e ≡ true

  axis-SensorTakes :
      (v : ℤ)
      → negsuc 32767 ≤ℤ v
      → v ≤ℤ pos 32767
      → SensorTakes (absolute x v)
        × SensorTakes (absolute y v)
        × SensorTakes (absolute z v)
        × SensorTakes (absolute rx v)
        × SensorTakes (absolute ry v)
        × SensorTakes (absolute rz v)
  unfolding made setup main_setup touchpad_setup sensor_setup keyboard_setup
  axis-SensorTakes v lo hi = ground arith

  -- As `as i16` gives values from -32768 to 32767, the motion device that `new` sets up passes on
  -- each of the motion events of a report, with values in the ranges that their axes were given.
  pub motion_events_taken :
      (fl : Floats) (r : MainReport)
      → ((v : F32) → negsuc 32767 ≤ℤ fl.as_i16 v)
      → ((v : F32) → fl.as_i16 v ≤ℤ pos 32767)
      → All SensorTakes (create_motion_events fl r)
  unfolding create_motion_events f32_to_i16
  motion_events_taken fl r lo hi = (
    (axis-SensorTakes _ (lo _) (hi _)).0,
    (
      (axis-SensorTakes _ (lo _) (hi _)).1,
      (
        (axis-SensorTakes _ (lo _) (hi _)).2,
        (
          (axis-SensorTakes _ (lo _) (hi _)).3,
          ((axis-SensorTakes _ (lo _) (hi _)).4, ((axis-SensorTakes _ (lo _) (hi _)).5, tt)),
        ),
      ),
    ),
  )
