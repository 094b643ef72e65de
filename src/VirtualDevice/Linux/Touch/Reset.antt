-- ===== src/VirtualDevice/Linux/Touch/Reset.antt =====
-- The first loop of `create_touch_events`: it frees the slots whose touches have ended.
use vita_oxi_pad.Base.{
  ℕ, zero, suc, ◌+◌, ◌≤◌, ◌<◌, ◌≡◌, ◌≢◌, ◌∙◌, refl, ap, Bool, not, ◌&&◌, List, [], ◌++◌, Option,
  none, some, returns, arith, if◌then◌else◌, get_elem?, set, length, length-set, get_elem?-set,
  get_elem?-some, lt-length_of_get_elem?,
}
use native.Mathlib.Decide.{ℕ_discrete}
use vita_oxi_pad.Reports.{TouchReport}
use vita_oxi_pad.VirtualDevice.Linux.Events.{InputEvent}
use vita_oxi_pad.VirtualDevice.Linux.Touch.{Slots, reset_slots, release_slot, is_some, push}
use vita_oxi_pad.VirtualDevice.Linux.Touch.View.{Contacts, feels, feels-append, Agree}

-- A run from `slot` on over `rounds` slots, as a reader sees it.
pub record Resets (rounds slot : ℕ) (touches : List TouchReport) (slots : Slots) (v : Contacts)
    : Type 0 where
  pub events : List InputEvent
  pub after : Slots
  pub runs : reset_slots rounds slot touches slots ≡ returns (events, after)
  pub same_length : length after ≡ length slots
  pub agrees : Agree after (feels events v)
  pub earlier : (j : ℕ) → j < slot → get_elem? after j ≡ get_elem? slots j
  pub cleared :
      (j : ℕ)
      → slot ≤ j
      → j < slot + rounds
      → get_elem? touches j ≡ none
      → get_elem? after j ≡ some none
  pub same_touching : (feels events v).touching ≡ v.touching

-- One slot: the events and the slots after it.
abbrev pub ended : ℕ → List TouchReport → Option ℕ → Bool
ended slot touches old = is_some old && not (is_some (get_elem? touches slot))

abbrev step_events : ℕ → List TouchReport → Option ℕ → List InputEvent
step_events slot touches old = if ended slot touches old then release_slot slot else []

abbrev pub step_slots : ℕ → List TouchReport → Option ℕ → Slots → Slots
step_slots slot touches old slots = if ended slot touches old then set slots slot none else slots

step-Agree :
    (slot : ℕ) (touches : List TouchReport) (old : Option ℕ) (slots : Slots) (v : Contacts)
    → Agree slots v
    → Agree (step_slots slot touches old slots) (feels (step_events slot touches old) v)
unfolding release_slot
step-Agree slot touches old slots v h j o e =
    ground (arith, h j o, get_elem?-set slots slot j none, lt-length_of_get_elem? slots j o)

step-touching :
    (slot : ℕ) (touches : List TouchReport) (old : Option ℕ) (v : Contacts)
    → (feels (step_events slot touches old) v).touching ≡ v.touching
unfolding release_slot
step-touching slot touches old v = ground arith

step_length :
    (slot : ℕ) (touches : List TouchReport) (old : Option ℕ) (slots : Slots)
    → length (step_slots slot touches old slots) ≡ length slots
step_length slot touches old slots = ground (arith, length-set slots slot none)

step_other :
    (slot : ℕ) (touches : List TouchReport) (old : Option ℕ) (slots : Slots) (j : ℕ)
    → j ≢ slot
    → get_elem? (step_slots slot touches old slots) j ≡ get_elem? slots j
step_other slot touches old slots j h = ground (arith, get_elem?-set slots slot j none)

step_cleared :
    (slot : ℕ) (touches : List TouchReport) (old : Option ℕ) (slots : Slots)
    → get_elem? slots slot ≡ some old
    → get_elem? touches slot ≡ none
    → get_elem? (step_slots slot touches old slots) slot ≡ some none
step_cleared slot touches old slots h e =
    ground (arith, get_elem?-set slots slot slot none, lt-length_of_get_elem? slots slot old)

reset_slots_step :
    (rounds slot : ℕ) (touches : List TouchReport) (slots after : Slots) (old : Option ℕ)
    (events : List InputEvent)
    → get_elem? slots slot ≡ some old
    → reset_slots rounds (suc slot) touches (step_slots slot touches old slots)
      ≡ returns (events, after)
    → reset_slots (suc rounds) slot touches slots
      ≡ returns (step_events slot touches old ++ events, after)
unfolding reset_slots
reset_slots_step rounds slot touches slots after old events e run =
    rw (e, reset_slots) (ap (push (step_events slot touches old)) run)

-- The loop runs through on slots that are there, and does what a reader sees as freeing the slots
-- that have no touch any more.
pub reset_slots-Resets :
    (rounds slot : ℕ) (touches : List TouchReport) (slots : Slots) (v : Contacts)
    → slot + rounds ≤ length slots
    → Agree slots v
    → Resets rounds slot touches slots v
unfolding reset_slots
reset_slots-Resets zero slot touches slots v h a = record {
  events = [];
  after = slots;
  runs = refl;
  same_length = refl;
  agrees = a;
  earlier = λ j l. refl;
  cleared = λ j l m e. absurd (omega arith);
  same_touching = refl;
}
reset_slots-Resets (suc rounds) slot touches slots v h a =
    let (old, e) = get_elem?-some slots slot (omega arith) in
    let es = step_events slot touches old in
    let slots' = step_slots slot touches old slots in
    let later =
      reset_slots-Resets rounds (suc slot) touches slots' (feels es v)
        (omega (arith, step_length slot touches old slots))
        (step-Agree slot touches old slots v a) in
    record {
      events = es ++ later.events;
      after = later.after;
      runs = reset_slots_step rounds slot touches slots later.after old later.events e later.runs;
      same_length = later.same_length ∙ step_length slot touches old slots;
      agrees = rw feels-append later.agrees;
      earlier =
          λ j l. later.earlier j (omega arith) ∙ step_other slot touches old slots j (omega arith);
      cleared = λ j l m n. elim (ℕ_discrete j slot) [
        | yes p ↦
            rw p (
              later.earlier slot (omega arith) ∙ step_cleared slot touches old slots e (rw (← p) n))
        | no p ↦ later.cleared j (omega arith) (omega arith) n
      ];
      same_touching = rw feels-append (later.same_touching ∙ step-touching slot touches old v);
    }
