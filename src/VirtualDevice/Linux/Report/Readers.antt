-- ===== src/VirtualDevice/Linux/Report/Readers.antt =====
-- Readers of the four devices, and what they see of the touchpad's part of a report.
use mathlib.Core.Option
use vita_oxi_pad.Base.{
  ℕ, ◌≡◌, ◌<◌, refl, Bool, List, [], ◌∷◌, ◌++◌, Option, none, some, Result, ok, returns, get_elem?,
  length, take,
}
use vita_oxi_pad.Reports.{MainReport, TouchReport}
use vita_oxi_pad.VirtualDevice.Config.{TouchpadSource, front, rear}
use vita_oxi_pad.VirtualDevice.Linux.Events.{InputEvent, synchronize, View, applies}
use vita_oxi_pad.VirtualDevice.Linux.Touch.{Slots}
use vita_oxi_pad.VirtualDevice.Linux.Touch.View.{Contacts, feels, Agree}
use vita_oxi_pad.VirtualDevice.Linux.Touch.Update.{Shows}
use vita_oxi_pad.VirtualDevice.Linux.Touch.Laws.{
  any_pressed, Followed, create_touch_events-Followed,
}
use vita_oxi_pad.VirtualDevice.Linux.Report.{
  Handle, main, touchpad, sensor, keyboard, VitaDevice, Write, touchpad_writes, write_all,
}

pub record Readers : Type 0 where
  pub gamepad : View
  pub keys : View
  pub pad : Contacts
  pub motion : View

-- Writes that succeed, as the four readers see them.
abbrev pub observe : {E : Type 0} → Handle → List InputEvent → Readers → Result Readers E
observe main es r = ok (record r { gamepad = applies es r.gamepad })
observe keyboard es r = ok (record r { keys = applies es r.keys })
observe touchpad es r = ok (record r { pad = feels es r.pad })
observe sensor es r = ok (record r { motion = applies es r.motion })

-- There is a slot for each touch that the pads can report.
pub record IsValid {Tree : Type 0} (d : VitaDevice Tree) : Type 0 where
  pub front_slots : length d.previous_front_touches ≡ 6
  pub rear_slots : length d.previous_rear_touches ≡ 4

-- A reader of the touchpad agrees with what the device remembers of the pad that it stands for.
abbrev pub PadSynced : {Tree : Type 0} → Option TouchpadSource → VitaDevice Tree → Contacts → Type 0
PadSynced none d v = Unit {0}
PadSynced (some front) d v = Agree d.previous_front_touches v × (v.touching ≡ d.touch_state)
PadSynced (some rear) d v = Agree d.previous_rear_touches v × (v.touching ≡ d.touch_state)

-- The first `n` slots hold the first `n` touches, and nothing else.
pub record Holds (n : ℕ) (ts : List TouchReport) (v : Contacts) : Type 0 where
  pub ids : (j : ℕ) → j < n → v.ids j ≡ Option.map (λ t. t.id) (get_elem? ts j)
  pub shown : (j : ℕ) (t : TouchReport) → j < n → get_elem? ts j ≡ some t → Shows v j t
  pub touching : v.touching ≡ any_pressed (take n ts)

abbrev pub PadHolds : Option TouchpadSource → MainReport → Contacts → Contacts → Type 0
PadHolds none r old v = v ≡ old
PadHolds (some front) r old v = Holds 6 r.front_touch.reports v
PadHolds (some rear) r old v = Holds 4 r.back_touch.reports v

Followed-Holds :
    {ts : List TouchReport} {slots : Slots} {n : ℕ} {state : Bool} {v : Contacts}
    (f : Followed ts slots n state v)
    → Holds n ts (feels f.events v)
Followed-Holds f = record {
  ids = λ j l. f.agrees j _ (f.slot_ids j l);
  shown = f.shown;
  touching = f.touching;
}

-- The touchpad's part of a report.
pub record PadStep {Tree : Type 0} (E : Type 0) (source : Option TouchpadSource) (r : MainReport)
    (d : VitaDevice Tree) (rd : Readers) : Type 0 where
  pub writes : List Write
  pub after : VitaDevice Tree
  pub pad : Contacts
  pub runs : touchpad_writes source r d ≡ returns (writes, after)
  pub written :
      (rest : List Write)
      → write_all {E = E} observe (writes ++ rest) rd
        ≡ write_all observe rest (record rd { pad = pad })
  pub synced : PadSynced source after pad
  pub holds : PadHolds source r rd.pad pad
  pub valid : IsValid after
  pub same_previous : after.previous ≡ d.previous
  pub same_config : after.config ≡ d.config

pub touchpad_writes-PadStep :
    {Tree : Type 0} (E : Type 0) (source : Option TouchpadSource) (r : MainReport)
    (d : VitaDevice Tree) (rd : Readers)
    → IsValid d
    → PadSynced source d rd.pad
    → PadStep E source r d rd
unfolding touchpad_writes write_all
touchpad_writes-PadStep E none r d rd valid s = record {
  writes = [];
  after = d;
  pad = rd.pad;
  runs = refl;
  written = λ rest. refl;
  synced = tt;
  holds = refl;
  valid = valid;
  same_previous = refl;
  same_config = refl;
}
touchpad_writes-PadStep E (some front) r d rd valid s =
    let f =
      create_touch_events-Followed r.front_touch.reports d.previous_front_touches 6 d.touch_state
        rd.pad valid.front_slots s.0 s.1 in
    record {
      writes = (touchpad, f.events) ∷ (touchpad, synchronize ∷ []) ∷ [];
      after = record d {
        previous_front_touches = f.after;
        touch_state = any_pressed (take 6 r.front_touch.reports);
      };
      pad = feels f.events rd.pad;
      runs = rw (f.runs, touchpad_writes) refl;
      written = λ rest. refl;
      synced = (f.agrees, f.touching);
      holds = Followed-Holds f;
      valid = record { front_slots = f.same_length; rear_slots = valid.rear_slots };
      same_previous = refl;
      same_config = refl;
    }
touchpad_writes-PadStep E (some rear) r d rd valid s =
    let f =
      create_touch_events-Followed r.back_touch.reports d.previous_rear_touches 4 d.touch_state
        rd.pad valid.rear_slots s.0 s.1 in
    record {
      writes = (touchpad, f.events) ∷ (touchpad, synchronize ∷ []) ∷ [];
      after = record d {
        previous_rear_touches = f.after;
        touch_state = any_pressed (take 4 r.back_touch.reports);
      };
      pad = feels f.events rd.pad;
      runs = rw (f.runs, touchpad_writes) refl;
      written = λ rest. refl;
      synced = (f.agrees, f.touching);
      holds = Followed-Holds f;
      valid = record { front_slots = valid.front_slots; rear_slots = f.same_length };
      same_previous = refl;
      same_config = refl;
    }
