-- ===== src/Tests/Startup.antt =====
-- A start-up that is answered, and one whose response comes in part.
use vita_oxi_pad.Base.{◌≡◌, refl, [], ◌∷◌, ◌++◌, ok, panics, returns, arith, ◌==◌, if◌then◌else◌}
use vita_oxi_pad.NetProtocol.{handshake_content, config_content}
use vita_oxi_pad.Protocol.Bytes.{heartbeat_magic, front_is, from_le_bytes}
use vita_oxi_pad.Client.Startup.{min_polling_rate, handshake_args, config_args, start}
use vita_oxi_pad.Client.Startup.Laws.{all_well, start_answered, start_short}
use vita_oxi_pad.Tests.Wire.{toy, a_handshake, handshake_Frames, nearly}

start_answered_example :
    start toy 5001 6000 (all_well (toy.finished_data (handshake_content a_handshake) ++ (9 ∷ [])))
    ≡ returns (
        ok (record {
          conn = record { incoming_buffer = 9 ∷ []; outgoing_buffer = [] };
          heartbeat_freq = 30;
          control =
              toy.finished_data (handshake_content (handshake_args 5001))
              ++ (if 6000 == min_polling_rate
                  then []
                  else toy.finished_data (config_content (config_args 6000)));
          pad = heartbeat_magic;
        }))
start_answered_example = start_answered toy 5001 6000 a_handshake (9 ∷ []) handshake_Frames

start_short_example : start toy 5001 4000 (all_well nearly) ≡ panics
unfolding front_is from_le_bytes
start_short_example = start_short toy 5001 4000 nearly refl (omega arith) (λ e. omega arith)
