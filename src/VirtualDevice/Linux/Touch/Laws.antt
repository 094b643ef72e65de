-- ===== src/VirtualDevice/Linux/Touch/Laws.antt =====
-- One call of `create_touch_events`, as a reader of the touchpad sees it.
use mathlib.Core.Option
use vita_oxi_pad.Base.{
  ℕ, zero, suc, ◌+◌, ◌<◌, ◌≡◌, ◌∙◌, refl, ap, Bool, true, false, ◌||◌, List, [], ◌∷◌, ◌++◌, some,
  returns, arith, ltb, get_elem?, take, length, Option-cases, inl, inr, length-le_of_get_elem?_none,
}
use vita_oxi_pad.Reports.{TouchReport}
use vita_oxi_pad.VirtualDevice.Linux.Events.{InputEvent}
use vita_oxi_pad.VirtualDevice.Linux.Touch.{
  Slots, reset_slots, update_slots, any_touch_active, touch_button_events, create_touch_events,
}
use vita_oxi_pad.VirtualDevice.Linux.Touch.View.{Contacts, feels, feels-append, Agree}
use vita_oxi_pad.VirtualDevice.Linux.Touch.Reset.{Resets, reset_slots-Resets}
use vita_oxi_pad.VirtualDevice.Linux.Touch.Update.{Updates, update_slots-Updates, Shows, Tracked-at}

-- Some touch of the list presses the pad.
abbrev pub any_pressed : List TouchReport → Bool
any_pressed [] = false
any_pressed (t ∷ ts) = ltb 0 t.force || any_pressed ts

any_touch_active-any_pressed :
    (n max_slots slot : ℕ) (ts : List TouchReport)
    → slot + n ≡ max_slots
    → any_touch_active max_slots slot ts ≡ any_pressed (take n ts)
unfolding any_touch_active
any_touch_active-any_pressed zero max_slots slot [] h = refl
any_touch_active-any_pressed zero max_slots slot (t ∷ ts) h = ground arith
any_touch_active-any_pressed (suc n) max_slots slot [] h = refl
any_touch_active-any_pressed (suc n) max_slots slot (t ∷ ts) h =
    ground (arith, any_touch_active-any_pressed n max_slots (suc slot) ts)

touch_button_events_state :
    (active touch_state : Bool) (v : Contacts)
    → v.touching ≡ touch_state
    → ((touch_button_events active touch_state).1 ≡ active)
      × ((feels (touch_button_events active touch_state).0 v).touching ≡ active)
      × ((feels (touch_button_events active touch_state).0 v).ids ≡ v.ids)
      × ((feels (touch_button_events active touch_state).0 v).xs ≡ v.xs)
      × ((feels (touch_button_events active touch_state).0 v).ys ≡ v.ys)
      × ((feels (touch_button_events active touch_state).0 v).pressures ≡ v.pressures)
unfolding touch_button_events
touch_button_events_state true true v h = (refl, h, refl, refl, refl, refl)
touch_button_events_state true false v h = (refl, refl, refl, refl, refl, refl)
touch_button_events_state false true v h = (refl, refl, refl, refl, refl, refl)
touch_button_events_state false false v h = (refl, h, refl, refl, refl, refl)

-- The result of a call, as a reader sees it.
pub record Followed (touches : List TouchReport) (slots : Slots) (max_slots : ℕ)
    (touch_state : Bool) (v : Contacts) : Type 0 where
  pub events : List InputEvent
  pub after : Slots
  pub runs :
      create_touch_events touches slots max_slots touch_state
      ≡ returns (events, after, any_pressed (take max_slots touches))
  pub same_length : length after ≡ max_slots
  pub agrees : Agree after (feels events v)
  pub slot_ids :
      (j : ℕ)
      → j < max_slots
      → get_elem? after j ≡ some (Option.map (λ t. t.id) (get_elem? touches j))
  pub shown :
      (j : ℕ) (t : TouchReport)
      → j < max_slots
      → get_elem? touches j ≡ some t
      → Shows (feels events v) j t
  pub touching : (feels events v).touching ≡ any_pressed (take max_slots touches)

pub create_touch_events_run :
    (touches : List TouchReport) (slots slots' slots'' : Slots) (max_slots : ℕ) (state : Bool)
    (resets updates : List InputEvent)
    → reset_slots max_slots 0 touches slots ≡ returns (resets, slots')
    → update_slots max_slots 0 touches slots' ≡ returns (updates, slots'')
    → create_touch_events touches slots max_slots state ≡ (
        let b = touch_button_events (any_touch_active max_slots 0 touches) state in
        returns (resets ++ (updates ++ b.0), slots'', b.1))
unfolding create_touch_events
create_touch_events_run touches slots slots' slots'' max_slots state resets updates r u =
    rw (r, create_touch_events) (rw (u, create_touch_events) refl)

-- What the two loops and the buttons give together.
module _ (touches : List TouchReport) (slots : Slots) (max_slots : ℕ) (touch_state : Bool)
    (v : Contacts) (first : Resets max_slots 0 touches slots v)
    (second : Updates max_slots 0 touches first.after (feels first.events v))
    (touched : (feels second.events (feels first.events v)).touching ≡ touch_state) where
  abbrev active : Bool
  active = any_touch_active max_slots 0 touches

  abbrev buttons : List InputEvent
  buttons = (touch_button_events active touch_state).0

  abbrev all_events : List InputEvent
  all_events = first.events ++ (second.events ++ buttons)

  abbrev moved : Contacts
  moved = feels second.events (feels first.events v)

  split : feels all_events v ≡ feels buttons moved
  split =
      feels-append first.events (second.events ++ buttons) v
      ∙ feels-append second.events buttons (feels first.events v)

  active-any_pressed : active ≡ any_pressed (take max_slots touches)
  active-any_pressed = any_touch_active-any_pressed max_slots max_slots 0 touches (omega arith)

  ids_after : (feels all_events v).ids ≡ moved.ids
  ids_after = ap (λ u. u.ids) split ∙ (touch_button_events_state active touch_state moved touched).2

  all_events-Agree : Agree second.after (feels all_events v)
  all_events-Agree j o e = ap (λ f. f j) ids_after ∙ second.agrees j o e

  all_events-Shows :
      (j : ℕ) (t : TouchReport)
      → j < max_slots
      → get_elem? touches j ≡ some t
      → Shows (feels all_events v) j t
  all_events-Shows j t l e =
      let kept = touch_button_events_state active touch_state moved touched in
      let there =
        (Tracked-at max_slots 0 j j touches t second.after moved second.tracked e (omega arith)
          l).1 in
      record {
        id = ap (λ f. f j) ids_after ∙ there.id;
        x = ap (λ u. u.xs j) split ∙ ap (λ f. f j) kept.3 ∙ there.x;
        y = ap (λ u. u.ys j) split ∙ ap (λ f. f j) kept.4 ∙ there.y;
        pressure = ap (λ u. u.pressures j) split ∙ ap (λ f. f j) kept.5 ∙ there.pressure;
      }

  slot_ids_after :
      (j : ℕ)
      → j < max_slots
      → get_elem? second.after j ≡ some (Option.map (λ t. t.id) (get_elem? touches j))
  slot_ids_after j l = elim (Option-cases (get_elem? touches j)) [
    | inl e ↦ rw e (
        second.later j (omega (arith, length-le_of_get_elem?_none touches j e))
        ∙ first.cleared j (omega arith) (omega arith) e)
    | inr (t, e) ↦
        rw e
          (Tracked-at max_slots 0 j j touches t second.after moved second.tracked e (omega arith)
            l).0
  ]

  runs_after :
      create_touch_events touches slots max_slots touch_state
      ≡ returns (all_events, second.after, any_pressed (take max_slots touches))
  runs_after =
      create_touch_events_run touches slots first.after second.after max_slots touch_state
        first.events second.events first.runs second.runs
      ∙ ap (λ b. returns (all_events, second.after, b))
          ((touch_button_events_state active touch_state moved touched).0 ∙ active-any_pressed)

  followed : length second.after ≡ max_slots → Followed touches slots max_slots touch_state v
  followed h = record {
    events = all_events;
    after = second.after;
    runs = runs_after;
    same_length = h;
    agrees = all_events-Agree;
    slot_ids = slot_ids_after;
    shown = all_events-Shows;
    touching =
        ap (λ u. u.touching) split
        ∙ (touch_button_events_state active touch_state moved touched).1
        ∙ active-any_pressed;
  }

-- Where there is a slot for each number below `max_slots`, and the reader agrees with the device on
-- the slots and on whether the pad is touched, a call does not panic. After its events the reader
-- sees in each slot the touch report of that index, with its id, position and pressure, and no
-- touch where there is no report; the device remembers the same ids; and the pad counts as touched
-- exactly if one of the first `max_slots` reports has a force above 0.
pub create_touch_events-Followed :
    (touches : List TouchReport) (slots : Slots) (max_slots : ℕ) (touch_state : Bool) (v : Contacts)
    → length slots ≡ max_slots
    → Agree slots v
    → v.touching ≡ touch_state
    → Followed touches slots max_slots touch_state v
create_touch_events-Followed touches slots max_slots touch_state v h a t =
    let first = reset_slots-Resets max_slots 0 touches slots v (omega arith) a in
    let second =
      update_slots-Updates max_slots 0 touches first.after (feels first.events v)
        (first.same_length ∙ h) first.agrees in
    followed touches slots max_slots touch_state v first second
      (second.same_touching ∙ first.same_touching ∙ t) (second.same_length ∙ first.same_length ∙ h)
