-- ===== src/VirtualDevice/Linux/Touch/Update.antt =====
-- The second loop of `create_touch_events`: it puts the current touches into their slots.
use vita_oxi_pad.Base.{
  ℕ, zero, suc, ◌+◌, ◌≤◌, ◌<◌, ◌≡◌, ◌∙◌, refl, List, [], ◌∷◌, ◌++◌, some, returns, arith, get_elem?,
  set, length, length-set, get_elem?-set, get_elem?-set_self, get_elem?-set_ne, get_elem?-some,
}
use native.Mathlib.Decide.{dec_lt}
use vita_oxi_pad.Base.Int.{pos}
use vita_oxi_pad.Reports.{TouchReport}
use vita_oxi_pad.VirtualDevice.Linux.Events.{InputEvent}
use vita_oxi_pad.VirtualDevice.Linux.Touch.{Slots, update_slots, slot_events}
use vita_oxi_pad.VirtualDevice.Linux.Touch.View.{Contacts, feels, feels-append, Agree}

-- The reader sees this touch in slot `j`.
pub record Shows (v : Contacts) (j : ℕ) (t : TouchReport) : Type 0 where
  pub id : v.ids j ≡ some t.id
  pub x : v.xs j ≡ pos t.x
  pub y : v.ys j ≡ pos t.y
  pub pressure : v.pressures j ≡ pos t.force

-- Two views agree on slot `j`.
pub record SameAt (w v : Contacts) (j : ℕ) : Type 0 where
  pub id : w.ids j ≡ v.ids j
  pub x : w.xs j ≡ v.xs j
  pub y : w.ys j ≡ v.ys j
  pub pressure : w.pressures j ≡ v.pressures j

SameAt-trans : {u w v : Contacts} (j : ℕ) → SameAt u w j → SameAt w v j → SameAt u v j
SameAt-trans j p q = record {
  id = p.id ∙ q.id;
  x = p.x ∙ q.x;
  y = p.y ∙ q.y;
  pressure = p.pressure ∙ q.pressure;
}

Shows-SameAt : {w v : Contacts} (j : ℕ) (t : TouchReport) → SameAt w v j → Shows v j t → Shows w j t
Shows-SameAt j t p q = record {
  id = p.id ∙ q.id;
  x = p.x ∙ q.x;
  y = p.y ∙ q.y;
  pressure = p.pressure ∙ q.pressure;
}

-- The touches from `slot` on stand in the slots from `slot` on, as far as there are slots.
abbrev pub Tracked : ℕ → ℕ → List TouchReport → Slots → Contacts → Type 0
Tracked max_slots slot [] after v = Unit {0}
Tracked max_slots slot (t ∷ ts) after v =
    (slot < max_slots → (get_elem? after slot ≡ some (some t.id)) × Shows v slot t)
    × Tracked max_slots (suc slot) ts after v

Tracked-past :
    (max_slots slot : ℕ) (ts : List TouchReport) (after : Slots) (v : Contacts)
    → max_slots ≤ slot
    → Tracked max_slots slot ts after v
Tracked-past max_slots slot [] after v h = tt
Tracked-past max_slots slot (t ∷ ts) after v h =
    (λ l. absurd (omega arith), Tracked-past max_slots (suc slot) ts after v (omega arith))

pub Tracked-at :
    (max_slots slot j i : ℕ) (ts : List TouchReport) (t : TouchReport) (after : Slots)
    (v : Contacts)
    → Tracked max_slots slot ts after v
    → get_elem? ts j ≡ some t
    → slot + j ≡ i
    → i < max_slots
    → (get_elem? after i ≡ some (some t.id)) × Shows v i t
Tracked-at max_slots slot j i [] t after v h e s l = cc
Tracked-at max_slots slot zero i (u ∷ ts) t after v h e s l =
    let p : slot ≡ i = omega arith in let q : u ≡ t = cc in rw (← p, ← q) (h.0 (omega arith))
Tracked-at max_slots slot (suc j) i (u ∷ ts) t after v h e s l =
    Tracked-at max_slots (suc slot) j i ts t after v h.1 e (omega arith) l

-- A run from `slot` on, as a reader sees it.
pub record Updates (max_slots slot : ℕ) (touches : List TouchReport) (slots : Slots) (v : Contacts)
    : Type 0 where
  pub events : List InputEvent
  pub after : Slots
  pub runs : update_slots max_slots slot touches slots ≡ returns (events, after)
  pub same_length : length after ≡ length slots
  pub agrees : Agree after (feels events v)
  pub earlier : (j : ℕ) → j < slot → get_elem? after j ≡ get_elem? slots j
  pub later : (j : ℕ) → slot + length touches ≤ j → get_elem? after j ≡ get_elem? slots j
  pub earlier_view : (j : ℕ) → j < slot → SameAt (feels events v) v j
  pub tracked : Tracked max_slots slot touches after (feels events v)
  pub same_touching : (feels events v).touching ≡ v.touching

slot-Shows :
    (slot : ℕ) (t : TouchReport) (v : Contacts) → Shows (feels (slot_events slot t) v) slot t
unfolding slot_events
slot-Shows slot t v = ground arith

slot-SameAt :
    (slot : ℕ) (t : TouchReport) (v : Contacts) (j : ℕ)
    → j < slot
    → SameAt (feels (slot_events slot t) v) v j
unfolding slot_events
slot-SameAt slot t v j h = ground arith

slot-Agree :
    (slot : ℕ) (t : TouchReport) (slots : Slots) (v : Contacts)
    → Agree slots v
    → slot < length slots
    → Agree (set slots slot (some t.id)) (feels (slot_events slot t) v)
unfolding slot_events
slot-Agree slot t slots v h l j o e = ground (arith, h j o, get_elem?-set slots slot j (some t.id))

slot-touching :
    (slot : ℕ) (t : TouchReport) (v : Contacts)
    → (feels (slot_events slot t) v).touching ≡ v.touching
unfolding slot_events
slot-touching slot t v = refl

update_slots_stop :
    (max_slots slot : ℕ) (touches : List TouchReport) (slots : Slots)
    → max_slots ≤ slot
    → update_slots max_slots slot touches slots ≡ returns ([], slots)
unfolding update_slots
update_slots_stop max_slots slot [] slots h = refl
update_slots_stop max_slots slot (t ∷ ts) slots h = ground arith

update_slots_step :
    (max_slots slot : ℕ) (t : TouchReport) (ts : List TouchReport) (slots after : Slots)
    (events : List InputEvent)
    → slot < max_slots
    → slot < length slots
    → update_slots max_slots (suc slot) ts (set slots slot (some t.id)) ≡ returns (events, after)
    → update_slots max_slots slot (t ∷ ts) slots ≡ returns (slot_events slot t ++ events, after)
unfolding update_slots
update_slots_step max_slots slot t ts slots after events l h run =
    let (old, e) = get_elem?-some slots slot h in ground arith

stopped :
    (max_slots slot : ℕ) (touches : List TouchReport) (slots : Slots) (v : Contacts)
    → Agree slots v
    → (update_slots max_slots slot touches slots ≡ returns ([], slots))
    → Tracked max_slots slot touches slots v
    → Updates max_slots slot touches slots v
stopped max_slots slot touches slots v a e tr = record {
  events = [];
  after = slots;
  runs = e;
  same_length = refl;
  agrees = a;
  earlier = λ j l. refl;
  later = λ j l. refl;
  earlier_view = λ j l. record { id = refl; x = refl; y = refl; pressure = refl };
  tracked = tr;
  same_touching = refl;
}

-- The loop runs through where there is a slot for each number below `max_slots`.
pub update_slots-Updates :
    (max_slots slot : ℕ) (touches : List TouchReport) (slots : Slots) (v : Contacts)
    → length slots ≡ max_slots
    → Agree slots v
    → Updates max_slots slot touches slots v
update_slots-Updates max_slots slot [] slots v h a =
    stopped max_slots slot [] slots v a (unfold update_slots in refl) tt
update_slots-Updates max_slots slot (t ∷ ts) slots v h a = elim (dec_lt slot max_slots) [
  | no l ↦
      stopped max_slots slot (t ∷ ts) slots v a
        (update_slots_stop max_slots slot (t ∷ ts) slots (omega arith))
        (Tracked-past max_slots slot (t ∷ ts) slots v (omega arith))
  | yes l ↦
      let es = slot_events slot t in
      let slots' = set slots slot (some t.id) in
      let w = feels es v in
      let rest =
        update_slots-Updates max_slots (suc slot) ts slots' w
          (length-set slots slot (some t.id) ∙ h) (slot-Agree slot t slots v a (omega arith)) in
      record {
        events = es ++ rest.events;
        after = rest.after;
        runs =
            update_slots_step max_slots slot t ts slots rest.after rest.events l (omega arith)
              rest.runs;
        same_length = rest.same_length ∙ length-set slots slot (some t.id);
        agrees = rw feels-append rest.agrees;
        earlier =
            λ j lt. rest.earlier j (omega arith) ∙ get_elem?-set_ne slots (some t.id) (omega arith);
        later =
            λ j le. rest.later j (omega arith) ∙ get_elem?-set_ne slots (some t.id) (omega arith);
        earlier_view = λ j lt.
            rw feels-append
              (SameAt-trans j (rest.earlier_view j (omega arith)) (slot-SameAt slot t v j lt));
        tracked = rw feels-append (
          λ _. (
            rest.earlier slot (omega arith)
                ∙ get_elem?-set_self slots slot (some t.id) (omega arith),
            Shows-SameAt slot t (rest.earlier_view slot (omega arith)) (slot-Shows slot t v),
          ),
          rest.tracked,
        );
        same_touching = rw feels-append (rest.same_touching ∙ slot-touching slot t v);
      }
]
