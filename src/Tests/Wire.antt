-- ===== src/Tests/Wire.antt =====
-- A wire format of three frames, and what a connection does with them.
use vita_oxi_pad.Base.{
  ℕ, ◌+◌, ◌≡◌, ◌≢◌, ◌↔◌, refl, true, false, List, [], ◌∷◌, ◌++◌, none, some, Result, ok, err,
  panics, returns, arith, ◌==◌, if◌then◌else◌, get_or, length, All,
}
use vita_oxi_pad.NetProtocol
use vita_oxi_pad.NetProtocol.{
  FlatBuffers, Packet, config_content, handshake_content, pad_content, packet_of, client, server,
}
use vita_oxi_pad.Reports.{MainReport, try_from, buttons_from, touch_data_from, motion_from}
use vita_oxi_pad.Protocol.Events.{
  Event, handshake_from, handshake_response_received, heartbeat_received, pad_data_received,
}
use vita_oxi_pad.Protocol.Bytes.{
  heartbeat_size, heartbeat_magic, front_is, from_le_bytes, to_le_bytes,
}
use vita_oxi_pad.Protocol.Connection.{new, receive_data, retrieve_out_data, event_of, next, events}
use vita_oxi_pad.Protocol.Connection.Next.{announced, next_panics_iff, next_stalls, next-append}
use vita_oxi_pad.Protocol.Connection.Stream.{
  Message, heartbeat, packet, Frames, Delivers, items_of, messages, stream, encode, events-ne-none,
  events-stream, events_stop,
}
use vita_oxi_pad.Protocol.Connection.Loopback.{Send, handshakes, heartbeats, sends, loopback}

abbrev pub a_config : NetProtocol.Config
a_config = record { polling_interval = 4000 }

abbrev pub a_handshake : NetProtocol.Handshake
a_handshake = record { endpoint = server; port = 5000; heartbeat_freq = 30 }

abbrev pub no_vector : NetProtocol.Vector3
no_vector = record { x = 0; y = 0; z = 0 }

abbrev pub wire_buttons : NetProtocol.ButtonsData
wire_buttons = record {
  select = false;
  start = true;
  up = true;
  right = false;
  down = false;
  left = true;
  lt = true;
  rt = false;
  triangle = false;
  circle = true;
  cross = false;
  square = false;
  vol_up = true;
  vol_down = false;
  ps = false;
}

abbrev pub wire_touches : NetProtocol.TouchData
wire_touches = record {
  reports = some (
      record { pressure = 20; id = 7; x = 100; y = 200 }
      ∷ record { pressure = 0; id = 9; x = 1500; y = 800 }
      ∷ []);
}

abbrev pub a_pad : NetProtocol.Pad
a_pad = record {
  buttons = some wire_buttons;
  lx = 1;
  ly = 2;
  rx = 3;
  ry = 4;
  front_touch = some wire_touches;
  back_touch = some wire_touches;
  motion = some (record { gyro = no_vector; accelerometer = no_vector });
  timestamp = 17;
  charge_percent = 90;
}

abbrev toy_read : ℕ → Result Packet ℕ
toy_read b =
    if b == 10
    then ok (packet_of (config_content a_config))
    else if b == 20
    then ok (packet_of (handshake_content a_handshake))
    else if b == 30
    then ok (packet_of (pad_content a_pad))
    else err b

-- Each content is one byte, behind its length.
abbrev pub toy : FlatBuffers ℕ
toy = record {
  size_prefixed_root_as_packet = λ bytes. toy_read (get_or bytes 4 0);
  root_as_packet = λ bytes. toy_read (get_or bytes 0 0);
  finished_data = λ c. elim c [
    | NetProtocol.config_content _ ↦ 1 ∷ 0 ∷ 0 ∷ 0 ∷ 10 ∷ []
    | NetProtocol.handshake_content _ ↦ 1 ∷ 0 ∷ 0 ∷ 0 ∷ 20 ∷ []
    | NetProtocol.pad_content _ ↦ 1 ∷ 0 ∷ 0 ∷ 0 ∷ 30 ∷ []
  ];
}

config_Frames : Frames toy (config_content a_config)
unfolding to_le_bytes
config_Frames = record {
  body = 10 ∷ [];
  framed = refl;
  filled = omega arith;
  short = omega arith;
  read_back = refl;
}

pub handshake_Frames : Frames toy (handshake_content a_handshake)
unfolding to_le_bytes
handshake_Frames = record {
  body = 20 ∷ [];
  framed = refl;
  filled = omega arith;
  short = omega arith;
  read_back = refl;
}

unfoldable pub pad_Frames : Frames toy (pad_content a_pad)
unfolding to_le_bytes
pad_Frames = record {
  body = 30 ∷ [];
  framed = refl;
  filled = omega arith;
  short = omega arith;
  read_back = refl;
}

abbrev pub a_report : MainReport
a_report = record {
  buttons = buttons_from wire_buttons;
  lx = 1;
  ly = 2;
  rx = 3;
  ry = 4;
  front_touch = touch_data_from wire_touches;
  back_touch = touch_data_from wire_touches;
  motion = motion_from (record { gyro = no_vector; accelerometer = no_vector });
  timestamp = 17;
  charge_percent = 90;
}

pub made : try_from a_pad ≡ ok a_report
unfolding try_from
made = refl

abbrev pub talk : List (Message × Event)
talk =
    (
      packet (handshake_content a_handshake),
      handshake_response_received (handshake_from a_handshake),
    )
    ∷ (heartbeat, heartbeat_received)
    ∷ (packet (pad_content a_pad), pad_data_received a_report)
    ∷ []

pub talk-Delivers : All (Delivers toy) talk
unfolding event_of try_from
talk-Delivers = ((handshake_Frames, refl), ((tt, refl), ((pad_Frames, refl), tt)))

-- A packet of 5 bytes that lacks its last one.
abbrev pub nearly : List ℕ
nearly = 5 ∷ 0 ∷ 0 ∷ 0 ∷ 1 ∷ 2 ∷ 3 ∷ 4 ∷ []

next_panics_iff_example : (next toy nearly ≡ panics) ↔ (
    (front_is heartbeat_size heartbeat_magic nearly ≡ false)
    × (announced nearly ≢ 0)
    × (length nearly + 1 ≡ 4 + announced nearly))
next_panics_iff_example = next_panics_iff toy nearly

events-stream_example :
    events toy (stream toy (messages toy talk) ++ (9 ∷ []))
    ≡ some (returns (items_of toy talk, 9 ∷ []))
events-stream_example = events-stream toy talk (9 ∷ []) (9 ∷ []) talk-Delivers (unfold next in refl)

events_stop_example :
    events toy (
      stream toy (messages toy talk)
      ++ (encode toy (packet (config_content a_config)) ++ heartbeat_magic))
    ≡ some (returns (items_of toy talk, heartbeat_magic))
unfolding event_of
events_stop_example =
    events_stop toy talk (packet (config_content a_config)) heartbeat_magic talk-Delivers
      config_Frames refl

events-ne-none_example : events toy nearly ≢ none
events-ne-none_example = events-ne-none toy nearly

abbrev pub zeros : List ℕ
zeros = 0 ∷ 0 ∷ 0 ∷ 0 ∷ []

next_stalls_example : next toy (zeros ++ heartbeat_magic) ≡ returns (none, zeros ++ heartbeat_magic)
unfolding from_le_bytes
next_stalls_example = next_stalls toy zeros heartbeat_magic (omega arith) refl

next-append_example :
    next toy (heartbeat_magic ++ nearly) ≡ returns (some (ok heartbeat_received), nearly)
unfolding next front_is
next-append_example =
    next-append toy heartbeat_magic nearly [] (some (ok heartbeat_received)) refl (omega arith)

abbrev calls : List Send
calls = handshakes a_handshake ∷ heartbeats ∷ []

abbrev heard : List (Message × Event)
heard =
    (
      packet (handshake_content a_handshake),
      handshake_response_received (handshake_from a_handshake),
    )
    ∷ (heartbeat, heartbeat_received)
    ∷ []

heard-Delivers : All (Delivers toy) heard
unfolding event_of
heard-Delivers = ((handshake_Frames, refl), ((tt, refl), tt))

loopback_example :
    events toy (receive_data (retrieve_out_data (sends toy calls new)).0 new).incoming_buffer
    ≡ some (returns (items_of toy heard, []))
loopback_example = loopback toy calls heard refl heard-Delivers
