-- ===== src/VirtualDevice/Linux/Setup.antt =====
-- `VitaDevice::create` and `VitaDevice::new` of linux.rs: the configuration by its name, and the
-- calls that set up the four uinput devices. The calls themselves, `/dev/uinput` and the names that
-- the kernel gives are parameters.
pub mod Abilities
pub mod Taken
pub mod Touched
pub mod Written
pub mod Create
use Prim.Native.String.{String}
use text.Mathlib.Text.{◌==◌}
use vita_oxi_pad.Base.{
  ℕ, ◌-◌, Bool, List, [], ◌∷◌, ◌++◌, map, Option, none, some, Result, ok, err, ◌>>=◌, map_err,
  if◌then◌else◌,
}
use vita_oxi_pad.Base.Int.{ℤ, pos, negsuc}
use vita_oxi_pad.VirtualDevice.Button.{Button}
use vita_oxi_pad.VirtualDevice.Touch.{Rstar}
use vita_oxi_pad.VirtualDevice.Config.{
  Config, TouchpadSource, front, rear, front_touchpad_rect, rear_touchpad_rect, rear_rl2_front_rl3,
  rear_rl1_front_rl3_vitatriggers_rl2, front_top_rl2_bottom_rl3_rear_touchpad,
  rear_top_rl2_bottom_rl3_front_touchpad,
}
use vita_oxi_pad.VirtualDevice.Linux.Events.{
  Key, AbsoluteAxis, map_button_to_ds4, x, y, z, rx, ry, rz, hat0x, hat0y, multitouch_slot,
  multitouch_tracking_id, multitouch_position_x, multitouch_position_y, multitouch_pressure,
  volume_up, volume_down, button_touch, button_tool_finger, button_left,
}
use vita_oxi_pad.VirtualDevice.Linux.Report.{
  Handle, main, touchpad, sensor, keyboard, VitaDevice, new_device,
}

pub data EventKind : Type 0 where
  key_events absolute_events relative_events : EventKind

pub data InputProperty : Type 0 where
  pointer button_pad accelerometer : InputProperty

-- Without `value`, which the code leaves at its default.
pub record AbsoluteInfo : Type 0 where
  pub minimum : ℤ
  pub maximum : ℤ
  pub fuzz : ℤ
  pub flat : ℤ
  pub resolution : ℤ

abbrev pub AbsoluteInfoSetup : Type 0
AbsoluteInfoSetup = AbsoluteAxis × AbsoluteInfo

-- `AbsoluteInfo { minimum, maximum, ..Default::default() }`
abbrev pub range : ℤ → ℤ → AbsoluteInfo
range lo hi = record { minimum = lo; maximum = hi; fuzz = pos 0; flat = pos 0; resolution = pos 0 }

-- A call on a handle; `create` has the device's name and its axes, and always the same id.
pub data Call : Type 0 where
  set_evbit : EventKind → Call
  set_keybit : Key → Call
  set_propbit : InputProperty → Call
  create_device : String → List AbsoluteInfoSetup → Call

abbrev pub front_touchpad_max_slots : ℕ
front_touchpad_max_slots = 6

abbrev pub rear_touchpad_max_slots : ℕ
rear_touchpad_max_slots = 4

abbrev pub joystick_abs_info : AbsoluteInfo
joystick_abs_info = record {
  minimum = pos 0;
  maximum = pos 255;
  fuzz = pos 0;
  flat = pos 128;
  resolution = pos 255;
}

abbrev pub dpad_info : AbsoluteInfo
dpad_info = record {
  minimum = negsuc 0;
  maximum = pos 1;
  fuzz = pos 0;
  flat = pos 0;
  resolution = pos 3;
}

abbrev pub main_axes : List AbsoluteInfoSetup
main_axes =
    (x, joystick_abs_info)
    ∷ (y, joystick_abs_info)
    ∷ (rx, joystick_abs_info)
    ∷ (ry, joystick_abs_info)
    ∷ (hat0y, dpad_info)
    ∷ (hat0x, dpad_info)
    ∷ []

-- The buttons of the loop, in its order.
abbrev pub main_buttons : List Button
main_buttons =
    Button.thumb_right ∷ Button.thumb_left ∷ Button.options ∷ Button.share ∷ Button.trigger_right
    ∷ Button.trigger_left ∷ Button.shoulder_right ∷ Button.shoulder_left ∷ Button.triangle
    ∷ Button.circle ∷ Button.cross ∷ Button.square ∷ Button.ps_button ∷ []

unfoldable pub main_setup : List Call
main_setup =
    set_evbit key_events ∷ map (λ b. set_keybit (map_button_to_ds4 b)) main_buttons
    ++ set_evbit absolute_events ∷ create_device "PS Vita VitaOxiPad" main_axes ∷ []

-- `(max_x, max_y, max_slots)`
abbrev pub touchpad_limits : Option TouchpadSource → ℕ × ℕ × ℕ
touchpad_limits (some rear) =
    (rear_touchpad_rect.1.x - 1, rear_touchpad_rect.1.y - 1, rear_touchpad_max_slots)
touchpad_limits (some front) =
    (front_touchpad_rect.1.x - 1, front_touchpad_rect.1.y - 1, front_touchpad_max_slots)
touchpad_limits none =
    (front_touchpad_rect.1.x - 1, front_touchpad_rect.1.y - 1, front_touchpad_max_slots)

abbrev pub touchpad_axes : ℕ × ℕ × ℕ → List AbsoluteInfoSetup
touchpad_axes (max_x, max_y, max_slots) =
    (multitouch_position_x, range (pos 0) (pos max_x))
    ∷ (multitouch_position_y, range (pos 0) (pos max_y))
    ∷ (x, range (pos 0) (pos max_x))
    ∷ (y, range (pos 0) (pos max_y))
    ∷ (multitouch_tracking_id, range (negsuc 0) (pos 128))
    ∷ (multitouch_slot, range (pos 0) (pos (max_slots - 1)))
    ∷ (multitouch_pressure, range (pos 0) (pos 128))
    ∷ []

unfoldable pub touchpad_setup : Option TouchpadSource → List Call
touchpad_setup source =
    set_evbit key_events
    ∷ set_evbit absolute_events
    ∷ set_evbit relative_events
    ∷ set_propbit pointer
    ∷ set_propbit button_pad
    ∷ set_keybit button_touch
    ∷ set_keybit button_tool_finger
    ∷ set_keybit button_left
    ∷ create_device "PS Vita VitaOxiPad (Touchpad)" (touchpad_axes (touchpad_limits source))
    ∷ []

-- `accel_abs_info`, which is `gyro_abs_info` too.
abbrev pub accel_abs_info : AbsoluteInfo
accel_abs_info = range (negsuc 32767) (pos 32768)

abbrev pub sensor_axes : List AbsoluteInfoSetup
sensor_axes =
    (x, accel_abs_info)
    ∷ (y, accel_abs_info)
    ∷ (z, accel_abs_info)
    ∷ (rx, accel_abs_info)
    ∷ (ry, accel_abs_info)
    ∷ (rz, accel_abs_info)
    ∷ []

unfoldable pub sensor_setup : List Call
sensor_setup =
    set_evbit absolute_events
    ∷ set_propbit accelerometer
    ∷ create_device "PS Vita VitaOxiPad (Motion Sensors)" sensor_axes
    ∷ []

unfoldable pub keyboard_setup : List Call
keyboard_setup =
    set_evbit key_events
    ∷ set_keybit volume_up
    ∷ set_keybit volume_down
    ∷ create_device "PS Vita VitaOxiPad (Virtual Keyboard)" []
    ∷ []

-- Every call of `new`, in its order.
unfoldable pub setup : Option TouchpadSource → List (Handle × Call)
unfolding main_setup touchpad_setup sensor_setup keyboard_setup
setup source =
    map (λ c. (main, c)) main_setup
    ++ (map (λ c. (touchpad, c)) (touchpad_setup source)
        ++ (map (λ c. (sensor, c)) sensor_setup ++ map (λ c. (keyboard, c)) keyboard_setup))

-- `Error::DeviceCreationFailed` and `Error::InvalidConfig`.
pub data CreateError (E : Type 0) : Type 0 where
  device_creation_failed : E → CreateError E
  invalid_config : String → CreateError E

module _ {W E : Type 0} (ioctl : Handle → Call → W → Result W E) where
  -- Calls in a row, each with its `?`.
  unfoldable pub call_all : List (Handle × Call) → W → Result W E
  call_all [] w = ok w
  call_all ((handle, c) ∷ rest) w = do w' ← ioctl handle c w; call_all rest w'

-- `a.ok().zip(b.ok()).zip(c.ok()).zip(d.ok()).map(..)`
abbrev pub identifiers_of :
    Option String → Option String → Option String → Option String → Option (List String)
identifiers_of (some a) (some b) (some c) (some d) = some (a ∷ b ∷ c ∷ d ∷ [])
identifiers_of _ _ _ _ = none

-- What `new` gives: the device, its identifiers, and the world after the calls.
pub record Created (Tree W : Type 0) : Type 0 where
  pub device : VitaDevice Tree
  pub ids : Option (List String)
  pub world : W

module _ {Rect Tree : Type 0} (rs : Rstar Rect Tree) where
  -- The match on the configuration's name.
  unfoldable pub config_named : String → Option (Config Tree)
  config_named name =
      if name == "standart"
      then some (rear_rl2_front_rl3 rs)
      else if name == "alt_triggers"
      then some (rear_rl1_front_rl3_vitatriggers_rl2 rs)
      else if name == "rear_touchpad"
      then some (front_top_rl2_bottom_rl3_rear_touchpad rs)
      else if name == "front_touchpad"
      then some (rear_top_rl2_bottom_rl3_front_touchpad rs)
      else none

module _ {Tree W E : Type 0} (ioctl : Handle → Call → W → Result W E)
    (evdev_name : Handle → W → Option String) where
  unfoldable pub new : Config Tree → W → Result (Created Tree W) E
  unfolding new_device
  new config w = do
    w' ← call_all ioctl (setup config.touchpad_source) w
    ok (record {
      device = new_device config;
      ids =
          identifiers_of (evdev_name main w') (evdev_name touchpad w') (evdev_name sensor w')
            (evdev_name keyboard w');
      world = w';
    })

module _ {W E : Type 0} (open_uinput : Handle → W → Result W E) where
  -- The four files, opened for the main device, the sensor, the touchpad and the keyboard.
  unfoldable pub open_files : W → Result W E
  open_files w = do
    w1 ← open_uinput main w
    w2 ← open_uinput sensor w1
    w3 ← open_uinput touchpad w2
    open_uinput keyboard w3

module _ {Rect Tree W E : Type 0} (rs : Rstar Rect Tree) (ioctl : Handle → Call → W → Result W E)
    (evdev_name : Handle → W → Option String) (open_uinput : Handle → W → Result W E) where
  unfoldable pub create : String → W → Result (Created Tree W) (CreateError E)
  unfolding config_named open_files new
  create name w = elim (config_named rs name) [
    | none ↦ err (invalid_config name)
    | some config ↦ do
      w' ← map_err device_creation_failed (open_files open_uinput w)
      map_err device_creation_failed (new ioctl evdev_name config w')
  ]
