-- ===== src/NetProtocol.antt =====
-- The wire types of common/netprotocol.fbs, as the accessors of the code that flatc generates from
-- that schema return them. A table's missing field of a struct or table type is `none`.
use vita_oxi_pad.Base.{ℕ, List, Option, none, some, Bool, Result}

-- The bit pattern of an IEEE `float`.
abbrev pub F32 : Type 0
F32 = ℕ

pub data Endpoint : Type 0 where
  client server : Endpoint

pub record Handshake : Type 0 where
  pub endpoint : Endpoint
  pub port : ℕ
  pub heartbeat_freq : ℕ

pub record Config : Type 0 where
  pub polling_interval : ℕ

pub record ButtonsData : Type 0 where
  pub select : Bool
  pub start : Bool
  pub up : Bool
  pub right : Bool
  pub down : Bool
  pub left : Bool
  pub lt : Bool
  pub rt : Bool
  pub triangle : Bool
  pub circle : Bool
  pub cross : Bool
  pub square : Bool
  pub vol_up : Bool
  pub vol_down : Bool
  pub ps : Bool

pub record Vector3 : Type 0 where
  pub x : F32
  pub y : F32
  pub z : F32

pub record MotionData : Type 0 where
  pub gyro : Vector3
  pub accelerometer : Vector3

pub record TouchReport : Type 0 where
  pub pressure : ℕ
  pub id : ℕ
  pub x : ℕ
  pub y : ℕ

pub record TouchData : Type 0 where
  pub reports : Option (List TouchReport)

pub record Pad : Type 0 where
  pub buttons : Option ButtonsData
  pub lx : ℕ
  pub ly : ℕ
  pub rx : ℕ
  pub ry : ℕ
  pub front_touch : Option TouchData
  pub back_touch : Option TouchData
  pub motion : Option MotionData
  pub timestamp : ℕ
  pub charge_percent : ℕ

-- The union's type byte. A later schema may send a value that this one does not name.
pub data PacketContent : Type 0 where
  no_content config handshake pad : PacketContent
  unknown : ℕ → PacketContent

-- What the accessors of a packet return.
pub record Packet : Type 0 where
  pub content_type : PacketContent
  pub content_as_config : Option Config
  pub content_as_handshake : Option Handshake
  pub content_as_pad : Option Pad

-- What a builder puts into the union of a packet: `PacketArgs { content_type, content }`.
pub data Content : Type 0 where
  config_content : Config → Content
  handshake_content : Handshake → Content
  pad_content : Pad → Content

-- What the accessors return for a packet that was built with this content.
abbrev pub packet_of : Content → Packet
packet_of (config_content c) = record {
  content_type = config;
  content_as_config = some c;
  content_as_handshake = none;
  content_as_pad = none;
}
packet_of (handshake_content h) = record {
  content_type = handshake;
  content_as_config = none;
  content_as_handshake = some h;
  content_as_pad = none;
}
packet_of (pad_content p) = record {
  content_type = pad;
  content_as_config = none;
  content_as_handshake = none;
  content_as_pad = some p;
}

-- The calls of the flatbuffers crate and of the generated code. `Invalid` is the crate's
-- `InvalidFlatbuffer`, which nothing here looks into.
pub record FlatBuffers (Invalid : Type 0) : Type 0 where
  pub size_prefixed_root_as_packet : List ℕ → Result Packet Invalid
  pub root_as_packet : List ℕ → Result Packet Invalid
  -- `Packet::create`, `finish_size_prefixed` and `finished_data`.
  pub finished_data : Content → List ℕ
