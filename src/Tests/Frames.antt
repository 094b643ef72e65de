-- ===== src/Tests/Frames.antt =====
-- Pads of the wire made into reports, and read by the decoder.
use vita_oxi_pad.Base.{◌≡◌, ◌≢◌, ◌↔◌, refl, ◌++◌, none, some, ok, err, arith}
use vita_oxi_pad.NetProtocol
use vita_oxi_pad.NetProtocol.{
  FlatBuffers, Packet, config_content, handshake_content, pad_content, packet_of, client, server,
}
use vita_oxi_pad.Reports.{
  try_from, buttons_missing, front_touch_missing, back_touch_missing, motion_missing,
}
use vita_oxi_pad.Reports.Laws.{try_from-err}
use vita_oxi_pad.Protocol.Events.{pad_data_received}
use vita_oxi_pad.Protocol.Codec.{decode, invalid_flatbuffer}
use vita_oxi_pad.Protocol.Codec.Laws.{fresh, sized, decode_first, decode_stuck}
use vita_oxi_pad.Tests.Wire.{toy, a_pad, a_report, made, pad_Frames, nearly, zeros}

abbrev bare_pad : NetProtocol.Pad
bare_pad = record a_pad { back_touch = none }

try_from-err_example :
    ((try_from bare_pad ≡ err buttons_missing) ↔ (bare_pad.buttons ≡ none))
    × ((try_from bare_pad ≡ err front_touch_missing)
        ↔ ((bare_pad.buttons ≢ none) × (bare_pad.front_touch ≡ none)))
    × ((try_from bare_pad ≡ err back_touch_missing) ↔ (
        (bare_pad.buttons ≢ none) × (bare_pad.front_touch ≢ none) × (bare_pad.back_touch ≡ none)))
    × ((try_from bare_pad ≡ err motion_missing) ↔ (
        (bare_pad.buttons ≢ none)
        × (bare_pad.front_touch ≢ none)
        × (bare_pad.back_touch ≢ none)
        × (bare_pad.motion ≡ none)))
try_from-err_example = try_from-err bare_pad

decode_first_example :
    decode toy fresh (toy.finished_data (pad_content a_pad) ++ nearly)
    ≡ (ok (some (pad_data_received a_report)), sized 1, nearly)
unfolding pad_Frames
decode_first_example = decode_first toy a_pad a_report nearly pad_Frames refl made

decode_stuck_example :
    decode toy (sized 1) (nearly ++ zeros) ≡ (err (invalid_flatbuffer 5), sized 1, nearly ++ zeros)
decode_stuck_example = decode_stuck toy 1 nearly zeros 5 (omega arith) refl
