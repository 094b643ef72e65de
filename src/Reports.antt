-- ===== src/Reports.antt =====
-- client/packages/vita_reports/src/lib.rs: the client's own report types and the conversions from
-- the wire types of `NetProtocol`.
pub mod Laws
use vita_oxi_pad.Base.{
  ℕ, List, [], map, Option, none, some, Bool, Result, ok, err, ◌>>=◌, ok_or_else,
}
use vita_oxi_pad.NetProtocol
use vita_oxi_pad.NetProtocol.{F32}

pub record ButtonsData : Type 0 where
  pub select : Bool
  pub start : Bool
  pub up : Bool
  pub right : Bool
  pub down : Bool
  pub left : Bool
  pub lt : Bool
  pub rt : Bool
  pub triangle : Bool
  pub circle : Bool
  pub cross : Bool
  pub square : Bool
  pub vol_up : Bool
  pub vol_down : Bool
  pub ps : Bool

-- `From<net_protocol::ButtonsData> for ButtonsData`
unfoldable pub buttons_from : NetProtocol.ButtonsData → ButtonsData
buttons_from b = record {
  select = b.select;
  start = b.start;
  up = b.up;
  right = b.right;
  down = b.down;
  left = b.left;
  lt = b.lt;
  rt = b.rt;
  triangle = b.triangle;
  circle = b.circle;
  cross = b.cross;
  square = b.square;
  vol_up = b.vol_up;
  vol_down = b.vol_down;
  ps = b.ps;
}

pub record Vector3 : Type 0 where
  pub x : F32
  pub y : F32
  pub z : F32

unfoldable pub vector3_from : NetProtocol.Vector3 → Vector3
vector3_from v = record { x = v.x; y = v.y; z = v.z }

pub record MotionData : Type 0 where
  pub gyro : Vector3
  pub accelerometer : Vector3

unfoldable pub motion_from : NetProtocol.MotionData → MotionData
unfolding vector3_from
motion_from m = record { gyro = vector3_from m.gyro; accelerometer = vector3_from m.accelerometer }

pub record TouchReport : Type 0 where
  pub x : ℕ
  pub y : ℕ
  pub id : ℕ
  pub force : ℕ

unfoldable pub touch_report_from : NetProtocol.TouchReport → TouchReport
touch_report_from t = record { x = t.x; y = t.y; id = t.id; force = t.pressure }

pub record TouchData : Type 0 where
  pub reports : List TouchReport

-- `unwrap_or_default`: a table with no vector has no reports.
abbrev unwrap_or_default {ℓ} : {A : Type ℓ} → Option (List A) → List A
unwrap_or_default none = []
unwrap_or_default (some l) = l

unfoldable pub touch_data_from : NetProtocol.TouchData → TouchData
unfolding touch_report_from
touch_data_from t = record { reports = map touch_report_from (unwrap_or_default t.reports) }

pub record MainReport : Type 0 where
  pub buttons : ButtonsData
  pub lx : ℕ
  pub ly : ℕ
  pub rx : ℕ
  pub ry : ℕ
  pub front_touch : TouchData
  pub back_touch : TouchData
  pub motion : MotionData
  pub timestamp : ℕ
  pub charge_percent : ℕ

-- The error texts of `try_from`.
pub data MissingData : Type 0 where
  buttons_missing front_touch_missing back_touch_missing motion_missing : MissingData

-- `TryFrom<net_protocol::Pad> for MainReport`
unfoldable pub try_from : NetProtocol.Pad → Result MainReport MissingData
unfolding buttons_from motion_from touch_data_from
try_from packet = do
  buttons ← ok_or_else packet.buttons buttons_missing
  front_touch ← ok_or_else packet.front_touch front_touch_missing
  back_touch ← ok_or_else packet.back_touch back_touch_missing
  motion ← ok_or_else packet.motion motion_missing
  ok (record {
    buttons = buttons_from buttons;
    front_touch = touch_data_from front_touch;
    back_touch = touch_data_from back_touch;
    motion = motion_from motion;
    timestamp = packet.timestamp;
    lx = packet.lx;
    ly = packet.ly;
    rx = packet.rx;
    ry = packet.ry;
    charge_percent = packet.charge_percent;
  })
