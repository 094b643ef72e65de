-- ===== src/VirtualDevice/Windows/Vigem.antt =====
-- What windows.rs uses of the crates vigem_client and windows, as parameters.
use vita_oxi_pad.Base.{ℕ, Bool, List, Option, Result}
use vita_oxi_pad.Base.Int.{ℤ}

-- `vigem_client::DpadDirection`
pub data VigemDpadDirection : Type 0 where
  north north_east east south_east south south_west west north_west none : VigemDpadDirection

-- `DS4Buttons`, a mask of a `u16`, with its constants and `DS4SpecialButtons::PS_HOME as u16`.
pub record Ds4Buttons (B : Type 0) : Type 0 where
  pub new : B
  pub dpad : B → VigemDpadDirection → B
  -- `|` and `|=` with a `u16`.
  pub bit_or : B → ℕ → B
  -- `==`
  pub eq : B → B → Bool
  pub thumb_right : ℕ
  pub thumb_left : ℕ
  pub options : ℕ
  pub share : ℕ
  pub trigger_right : ℕ
  pub trigger_left : ℕ
  pub shoulder_right : ℕ
  pub shoulder_left : ℕ
  pub triangle : ℕ
  pub circle : ℕ
  pub cross : ℕ
  pub square : ℕ
  pub ps_home : ℕ

-- `DS4SpecialButtons`
pub record Ds4SpecialButtons (S : Type 0) : Type 0 where
  pub new : S
  pub touchpad : S → Bool → S
  pub ps_home : S → Bool → S

-- `DS4TouchPoint::new` and `DS4TouchReport::new`.
pub record Ds4TouchPoint : Type 0 where
  pub x : ℕ
  pub y : ℕ

pub record Ds4TouchReport : Type 0 where
  pub timestamp : ℕ
  pub first : Option Ds4TouchPoint
  pub second : Option Ds4TouchPoint

-- What is set of a `DS4ReportExBuilder`. The status is the level of `BatteryStatus::Charging`, and
-- the second and the third touch report are always `None`.
pub record Ds4Report (B S : Type 0) : Type 0 where
  pub thumb_lx : ℕ
  pub thumb_ly : ℕ
  pub thumb_rx : ℕ
  pub thumb_ry : ℕ
  pub buttons : B
  pub touch_report : Option Ds4TouchReport
  pub gyro_x : ℤ
  pub gyro_y : ℤ
  pub gyro_z : ℤ
  pub accel_x : ℤ
  pub accel_y : ℤ
  pub accel_z : ℤ
  pub trigger_l : ℕ
  pub trigger_r : ℕ
  pub charging : ℕ
  pub special : S

pub data VirtualKey : Type 0 where
  vk_volume_up vk_volume_down : VirtualKey

-- A `KEYBDINPUT`: the key, and if `KEYEVENTF_KEYUP` is set.
abbrev pub KeyInput : Type 0
KeyInput = VirtualKey × Bool

-- `SendInput`, which gives how many inputs it took, and `update_ex` of the target.
pub record System (B S W E : Type 0) : Type 0 where
  pub send_input : List KeyInput → W → ℕ × W
  pub update_ex : Ds4Report B S → W → Result W E
