-- ===== src/VirtualDevice/Linux/Events.antt =====
-- The input events of linux.rs, without their time stamps, and what a reader of the device makes of
-- them: the kernel's evdev interface keeps a state for each key and a value for each axis.
use vita_oxi_pad.Base.{ℕ, ◌≡◌, refl, Bool, List, [], ◌∷◌, ◌++◌, ◌==◌, if◌then◌else◌}
use vita_oxi_pad.Base.Int.{ℤ}
use vita_oxi_pad.VirtualDevice.Button.{Button, discriminant}

pub data Key : Type 0 where
  button_thumbr button_thumbl button_start button_select button_tr button_tl button_tr2 button_tl2
        button_north button_east button_south button_west button_mode volume_up volume_down
        button_touch button_tool_finger button_left :
      Key

pub data AbsoluteAxis : Type 0 where
  x y z rx ry rz hat0x hat0y multitouch_slot multitouch_tracking_id multitouch_position_x
        multitouch_position_y multitouch_pressure :
      AbsoluteAxis

-- `KeyState::PRESSED` is `true`.
pub data InputEvent : Type 0 where
  key : Key → Bool → InputEvent
  absolute : AbsoluteAxis → ℤ → InputEvent
  synchronize : InputEvent

unfoldable pub map_button_to_ds4 : Button → Key
map_button_to_ds4 Button.thumb_right = button_thumbr
map_button_to_ds4 Button.thumb_left = button_thumbl
map_button_to_ds4 Button.options = button_start
map_button_to_ds4 Button.share = button_select
map_button_to_ds4 Button.trigger_right = button_tr
map_button_to_ds4 Button.trigger_left = button_tl
map_button_to_ds4 Button.shoulder_right = button_tr2
map_button_to_ds4 Button.shoulder_left = button_tl2
map_button_to_ds4 Button.triangle = button_north
map_button_to_ds4 Button.circle = button_east
map_button_to_ds4 Button.cross = button_south
map_button_to_ds4 Button.square = button_west
map_button_to_ds4 Button.ps_button = button_mode

-- A number for each key and each axis, to compare them by.
abbrev pub key_code : Key → ℕ
key_code button_thumbr = 0
key_code button_thumbl = 1
key_code button_start = 2
key_code button_select = 3
key_code button_tr = 4
key_code button_tl = 5
key_code button_tr2 = 6
key_code button_tl2 = 7
key_code button_north = 8
key_code button_east = 9
key_code button_south = 10
key_code button_west = 11
key_code button_mode = 12
key_code volume_up = 13
key_code volume_down = 14
key_code button_touch = 15
key_code button_tool_finger = 16
key_code button_left = 17

abbrev pub axis_code : AbsoluteAxis → ℕ
axis_code x = 0
axis_code y = 1
axis_code z = 2
axis_code rx = 3
axis_code ry = 4
axis_code rz = 5
axis_code hat0x = 6
axis_code hat0y = 7
axis_code multitouch_slot = 8
axis_code multitouch_tracking_id = 9
axis_code multitouch_position_x = 10
axis_code multitouch_position_y = 11
axis_code multitouch_pressure = 12

pub key_code-map_button_to_ds4 : (b : Button) → key_code (map_button_to_ds4 b) ≡ discriminant b
unfolding map_button_to_ds4
key_code-map_button_to_ds4 Button.thumb_right = refl
key_code-map_button_to_ds4 _ = refl

-- What a reader of a device knows.
pub record View : Type 0 where
  pub keys : Key → Bool
  pub axes : AbsoluteAxis → ℤ

abbrev pub apply : InputEvent → View → View
apply (key k state) v = record v {
  keys = λ k'. if key_code k == key_code k' then state else v.keys k';
}
apply (absolute a value) v = record v {
  axes = λ a'. if axis_code a == axis_code a' then value else v.axes a';
}
apply synchronize v = v

-- A list of events, first to last.
abbrev pub applies : List InputEvent → View → View
applies [] v = v
applies (e ∷ es) v = applies es (apply e v)

pub applies-append :
    (es fs : List InputEvent) (v : View) → applies (es ++ fs) v ≡ applies fs (applies es v)
applies-append [] fs v = refl
applies-append (e ∷ es) fs v = applies-append es fs (apply e v)
