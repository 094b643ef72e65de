-- ===== src/VirtualDevice/Linux/Setup/Abilities.antt =====
-- What the calls make of a device, by the kernel's uinput documentation: a kind of event, a key and
-- an axis is passed on once it has been set up before the device is created, and `UI_ABS_SETUP` gives
-- an axis its range.
use vita_oxi_pad.Base.{
  ℕ, ◌+◌, ◌≡◌, refl, Bool, true, false, ◌&&◌, ◌||◌, List, [], ◌∷◌, Option, none, some, Result, ok,
  ◌==◌, leb, if◌then◌else◌,
}
use vita_oxi_pad.Base.Int.{ℤ, pos_part, neg_part}
use vita_oxi_pad.VirtualDevice.Config.{Config}
use vita_oxi_pad.VirtualDevice.Linux.Events.{
  Key, AbsoluteAxis, InputEvent, key, absolute, synchronize, key_code, axis_code,
}
use vita_oxi_pad.VirtualDevice.Linux.Report.{Handle, main, touchpad, sensor, keyboard}
use vita_oxi_pad.VirtualDevice.Linux.Setup.{
  key_events, absolute_events, relative_events, AbsoluteInfo, AbsoluteInfoSetup, Call, set_evbit,
  set_keybit, set_propbit, create_device, setup, call_all,
}

pub record Abilities : Type 0 where
  pub keys_on : Bool
  pub axes_on : Bool
  pub keys : Key → Bool
  pub ranges : AbsoluteAxis → Option AbsoluteInfo
  pub created : Bool

abbrev pub no_abilities : Abilities
no_abilities = record {
  keys_on = false;
  axes_on = false;
  keys = λ k. false;
  ranges = λ a. none;
  created = false;
}

-- The range that the setups give an axis.
abbrev pub range_in : List AbsoluteInfoSetup → AbsoluteAxis → Option AbsoluteInfo
range_in [] a = none
range_in ((b, info) ∷ rest) a = if axis_code b == axis_code a then some info else range_in rest a

abbrev pub set_up : Call → Abilities → Abilities
set_up (set_evbit key_events) d = record d { keys_on = true }
set_up (set_evbit absolute_events) d = record d { axes_on = true }
set_up (set_evbit relative_events) d = d
set_up (set_keybit k) d = record d { keys = λ k'. key_code k == key_code k' || d.keys k' }
set_up (set_propbit p) d = d
set_up (create_device name axes) d = record d { ranges = range_in axes; created = true }

-- After the device is created nothing is set up any more.
abbrev pub enable : Call → Abilities → Abilities
enable c d = if d.created then d else set_up c d

-- The four devices.
abbrev pub Kernel : Type 0
Kernel = Handle → Abilities

abbrev pub handle_code : Handle → ℕ
handle_code main = 0
handle_code touchpad = 1
handle_code sensor = 2
handle_code keyboard = 3

-- Calls that all succeed.
abbrev pub granted : {E : Type 0} → Handle → Call → Kernel → Result Kernel E
granted h c k = ok (λ h'. if handle_code h == handle_code h' then enable c (k h') else k h')

-- A value of an axis is within a range.
abbrev pub within : ℤ → AbsoluteInfo → Bool
within v info =
    leb (pos_part info.minimum + neg_part v) (pos_part v + neg_part info.minimum)
    && leb (pos_part v + neg_part info.maximum) (pos_part info.maximum + neg_part v)

-- The device passes the event on, and the value of an axis is in the range that it was given.
abbrev pub takes : Abilities → InputEvent → Bool
takes d (key k state) = d.created && (d.keys_on && d.keys k)
takes d (absolute a v) =
    d.created && (d.axes_on && elim (d.ranges a) [ none ↦ false | some info ↦ within v info ])
takes d synchronize = d.created

-- The devices after calls that all succeed.
abbrev pub granted_all : List (Handle × Call) → Kernel → Kernel
granted_all [] k = k
granted_all ((h, c) ∷ cs) k =
    granted_all cs (λ h'. if handle_code h == handle_code h' then enable c (k h') else k h')

pub call_all-granted :
    (E : Type 0) (cs : List (Handle × Call)) (k : Kernel)
    → call_all {E = E} granted cs k ≡ ok (granted_all cs k)
unfolding call_all
call_all-granted E [] k = refl
call_all-granted E ((h, c) ∷ cs) k = call_all-granted E cs _

abbrev pub blank : Kernel
blank h = no_abilities

-- The devices that the calls of `new` make.
unfoldable pub made : {Tree : Type 0} → Config Tree → Kernel
unfolding setup
made config = granted_all (setup config.touchpad_source) blank
