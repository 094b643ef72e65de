-- ===== src/Client/Startup/Laws.antt =====
-- What a start-up that is answered has sent, and what it begins the loop with.
use vita_oxi_pad.Base.{
  length, false, ◌+◌, panics, ℕ, ◌<◌, ◌≡◌, ◌≢◌, refl, true, List, [], ◌++◌, none, some, ok, returns,
  arith, ◌==◌, if◌then◌else◌, Bool-cases, inl, inr, append-nil,
}
use vita_oxi_pad.NetProtocol
use vita_oxi_pad.NetProtocol.{FlatBuffers, handshake_content, config_content}
use native.Mathlib.Decide.{dec_le}
use vita_oxi_pad.Protocol.Bytes.{heartbeat_magic, heartbeat_size, front_is}
use vita_oxi_pad.Protocol.Connection.Next.{announced, next_panics_iff, next_waits}
use vita_oxi_pad.Protocol.Events.{handshake_from, handshake_response_received}
use vita_oxi_pad.Protocol.Connection.{
  event_of, next, new, receive_data, retrieve_out_data, send_handshake, send_heartbeat, send_config,
}
use vita_oxi_pad.Protocol.Connection.Stream.{Frames, packet, next-encode}
use vita_oxi_pad.Client.Startup.{
  Answers, min_polling_rate, handshake_args, config_args, first_response, configure, respond, start,
}

-- All that the start-up asks of the system works, and this is the response.
abbrev pub all_well : List ℕ → Answers
all_well bytes = record {
  handshake_written = true;
  response = some bytes;
  heartbeat_sent = true;
  device_created = true;
  config_written = true;
}

module _ {Invalid : Type 0} (fb : FlatBuffers Invalid) where
  first_response-frame :
      (h : NetProtocol.Handshake) (rest : List ℕ)
      → Frames fb (handshake_content h)
      → first_response fb (fb.finished_data (handshake_content h) ++ rest)
        ≡ returns (ok (handshake_from h, rest))
  unfolding first_response event_of
  first_response-frame h rest f =
      let p : next fb (fb.finished_data (handshake_content h) ++ rest)
          ≡ returns (some (ok (handshake_response_received (handshake_from h))), rest) =
        next-encode fb (packet (handshake_content h)) rest f in
      rw (p, first_response) refl

  -- When the system does what it is asked and the response begins with a whole handshake, the
  -- start-up succeeds with the handshake's heartbeat frequency: the control socket has been sent the
  -- client's handshake and then, exactly if the polling interval is not the least one, a
  -- configuration with it; the pad socket has sent one heartbeat; nothing waits to be sent; and what
  -- came behind the handshake is in the incoming buffer.
  pub start_answered :
      (port interval : ℕ) (h : NetProtocol.Handshake) (rest : List ℕ)
      → Frames fb (handshake_content h)
      → start fb port interval (all_well (fb.finished_data (handshake_content h) ++ rest))
        ≡ returns (
            ok (record {
              conn = record { incoming_buffer = rest; outgoing_buffer = [] };
              heartbeat_freq = h.heartbeat_freq;
              control =
                  fb.finished_data (handshake_content (handshake_args port))
                  ++ (if interval == min_polling_rate
                      then []
                      else fb.finished_data (config_content (config_args interval)));
              pad = heartbeat_magic;
            }))
  unfolding start respond configure receive_data new retrieve_out_data send_handshake send_heartbeat
      send_config handshake_from
  start_answered port interval h rest f =
      rw (first_response-frame h rest f, start, respond)
        (elim (Bool-cases (interval == min_polling_rate)) [
          | inl e ↦
              rw (e, append-nil (fb.finished_data (handshake_content (handshake_args port)))) refl
          | inr e ↦ rw e refl
        ])

  first_response_panics :
      (bytes : List ℕ) → next fb bytes ≡ panics → first_response fb bytes ≡ panics
  unfolding first_response
  first_response_panics bytes e = rw (e, first_response) refl

  first_response_none :
      (bytes rest : List ℕ)
      → next fb bytes ≡ returns (none, rest)
      → first_response fb bytes ≡ panics
  unfolding first_response
  first_response_none bytes rest e = rw (e, first_response) refl

  first_response_short :
      (bytes : List ℕ)
      → front_is heartbeat_size heartbeat_magic bytes ≡ false
      → length bytes < 4 + announced bytes
      → announced bytes ≢ 0
      → first_response fb bytes ≡ panics
  first_response_short bytes e l z = elim (dec_le (4 + announced bytes) (length bytes + 1)) [
    | yes last ↦ first_response_panics bytes ((next_panics_iff fb bytes).1 (e, z, omega arith))
    | no more ↦ first_response_none bytes bytes (next_waits fb bytes e (omega arith))
  ]

  -- When the rest works but the response, which is read once, does not begin with a heartbeat and
  -- announces a packet that is not all there, the start-up panics.
  pub start_short :
      (port interval : ℕ) (bytes : List ℕ)
      → front_is heartbeat_size heartbeat_magic bytes ≡ false
      → length bytes < 4 + announced bytes
      → announced bytes ≢ 0
      → start fb port interval (all_well bytes) ≡ panics
  unfolding start respond receive_data new retrieve_out_data send_handshake
  start_short port interval bytes e l z = rw (first_response_short bytes e l z, start, respond) refl
