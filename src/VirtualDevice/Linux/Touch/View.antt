-- ===== src/VirtualDevice/Linux/Touch/View.antt =====
-- What a reader of the touchpad device makes of its events, by the kernel's multitouch protocol
-- (type B): a slot event selects the slot that the next events are about; a tracking id of 0 or
-- more puts a touch into it, and -1 takes the touch out.
use vita_oxi_pad.Base.{
  ℕ, ◌≡◌, refl, Bool, List, [], ◌∷◌, ◌++◌, Option, none, some, ◌==◌, if◌then◌else◌, get_elem?,
}
use vita_oxi_pad.Base.Int.{ℤ, pos, negsuc}
use vita_oxi_pad.VirtualDevice.Linux.Events.{
  InputEvent, key, absolute, multitouch_slot, multitouch_tracking_id, multitouch_position_x,
  multitouch_position_y, multitouch_pressure, button_touch, button_tool_finger,
}
use vita_oxi_pad.VirtualDevice.Linux.Touch.{Slots}

pub record Contacts : Type 0 where
  pub current : ℕ
  pub ids : ℕ → Option ℕ
  pub xs : ℕ → ℤ
  pub ys : ℕ → ℤ
  pub pressures : ℕ → ℤ
  pub touching : Bool
  pub finger : Bool

-- A function changed at one argument.
abbrev pub update {ℓ} : {A : Type ℓ} → ℕ → A → (ℕ → A) → ℕ → A
update i a f j = if i == j then a else f j

abbrev pub tracking : ℤ → Option ℕ
tracking (pos n) = some n
tracking (negsuc n) = none

abbrev pub select : ℤ → ℕ → ℕ
select (pos n) old = n
select (negsuc n) old = old

abbrev pub feel : InputEvent → Contacts → Contacts
feel (absolute multitouch_slot n) v = record v { current = select n v.current }
feel (absolute multitouch_tracking_id n) v = record v { ids = update v.current (tracking n) v.ids }
feel (absolute multitouch_position_x n) v = record v { xs = update v.current n v.xs }
feel (absolute multitouch_position_y n) v = record v { ys = update v.current n v.ys }
feel (absolute multitouch_pressure n) v = record v { pressures = update v.current n v.pressures }
feel (key button_touch state) v = record v { touching = state }
feel (key button_tool_finger state) v = record v { finger = state }
feel _ v = v

abbrev pub feels : List InputEvent → Contacts → Contacts
feels [] v = v
feels (e ∷ es) v = feels es (feel e v)

pub feels-append :
    (es fs : List InputEvent) (v : Contacts) → feels (es ++ fs) v ≡ feels fs (feels es v)
feels-append [] fs v = refl
feels-append (e ∷ es) fs v = feels-append es fs (feel e v)

-- The reader sees in each slot the touch that the device remembers there.
abbrev pub Agree : Slots → Contacts → Type 0
Agree slots v = (j : ℕ) (o : Option ℕ) → get_elem? slots j ≡ some o → v.ids j ≡ o
