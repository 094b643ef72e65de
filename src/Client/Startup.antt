-- ===== src/Client/Startup.antt =====
-- The start-up in main.rs, from the first handshake to the loop. What the sockets and the set-up of
-- the virtual device answer is given to it.
pub mod Laws
use vita_oxi_pad.Base.{
  ℕ, ◌==◌, max, Bool, List, [], ◌∷◌, ◌++◌, Option, none, some, Result, ok, err, Outcome, panics,
  returns, if◌then◌else◌,
}
use vita_oxi_pad.NetProtocol
use vita_oxi_pad.NetProtocol.{FlatBuffers, client}
use vita_oxi_pad.Protocol.Events.{
  Handshake, handshake_response_received, heartbeat_received, pad_data_received,
}
use vita_oxi_pad.Protocol.Connection.{
  Connection, ConnectionEventsError, next, new, receive_data, retrieve_out_data, send_handshake,
  send_heartbeat, send_config,
}

-- `MIN_POLLING_RATE`
abbrev pub min_polling_rate : ℕ
min_polling_rate = 4000

-- `args.polling_interval.map(|v| v.max(MIN_POLLING_RATE)).unwrap_or(MIN_POLLING_RATE)`
unfoldable pub polling_interval : Option ℕ → ℕ
polling_interval none = min_polling_rate
polling_interval (some v) = max v min_polling_rate

-- What the system answers: if each write works, what the read puts into the buffer, if it works, and
-- if the virtual device is created.
pub record Answers : Type 0 where
  pub handshake_written : Bool
  pub response : Option (List ℕ)
  pub heartbeat_sent : Bool
  pub device_created : Bool
  pub config_written : Bool

pub data StartError (Invalid : Type 0) : Type 0 where
  handshake_not_sent no_response heartbeat_not_sent device_not_created config_not_sent :
      StartError Invalid
  bad_response : ConnectionEventsError Invalid → StartError Invalid

-- What has been set up: the connection, the heartbeat frequency, and the bytes that have been written
-- to the control socket and sent from the pad socket.
pub record Started : Type 0 where
  pub conn : Connection
  pub heartbeat_freq : ℕ
  pub control : List ℕ
  pub pad : List ℕ

-- `HandshakeArgs { endpoint: Client, port, ..Default::default() }`
abbrev pub handshake_args : ℕ → NetProtocol.Handshake
handshake_args port = record { endpoint = client; port = port; heartbeat_freq = 0 }

abbrev pub config_args : ℕ → NetProtocol.Config
config_args interval = record { polling_interval = interval }

module _ {Invalid : Type 0} (fb : FlatBuffers Invalid) where
  -- The first event of the connection, by its `expect`, its `?` and its `unimplemented!`.
  unfoldable pub first_response :
      List ℕ → Outcome (Result (Handshake × List ℕ) (ConnectionEventsError Invalid))
  first_response bytes = elim (next fb bytes) [
    | panics ↦ panics
    | returns (none, rest) ↦ panics
    | returns (some (ok (handshake_response_received h)), rest) ↦ returns (ok (h, rest))
    | returns (some (ok heartbeat_received), rest) ↦ panics
    | returns (some (ok (pad_data_received r)), rest) ↦ panics
    | returns (some (err e), rest) ↦ returns (err e)
  ]

  -- From the device's creation on: the configuration is sent if the interval is not the least one.
  unfoldable pub configure : ℕ → Answers → Started → Outcome (Result Started (StartError Invalid))
  unfolding send_config retrieve_out_data
  configure interval a s =
      let (out, conn) = retrieve_out_data (send_config fb (config_args interval) s.conn) in
      if a.device_created
      then if interval == min_polling_rate
        then returns (ok s)
        else if a.config_written
        then returns (ok (record s { conn = conn; control = s.control ++ out }))
        else returns (err config_not_sent)
      else returns (err device_not_created)

  -- From the response on: the first heartbeat goes out of the pad socket.
  unfoldable pub respond :
      ℕ → Answers → List ℕ → Connection → List ℕ → Outcome (Result Started (StartError Invalid))
  unfolding first_response configure receive_data send_heartbeat retrieve_out_data
  respond interval a control conn response =
      let received = receive_data response conn in
      elim (first_response received.incoming_buffer) [
        | panics ↦ panics
        | returns (err e) ↦ returns (err (bad_response e))
        | returns (ok (handshake, rest)) ↦
            let (out, conn') =
              retrieve_out_data (send_heartbeat (record received { incoming_buffer = rest })) in
            if a.heartbeat_sent
            then configure interval a (record {
              conn = conn';
              heartbeat_freq = handshake.heartbeat_freq;
              control = control;
              pad = out;
            })
            else returns (err heartbeat_not_sent)
      ]

  unfoldable pub start :
      (bound_port interval : ℕ) → Answers → Outcome (Result Started (StartError Invalid))
  unfolding respond new send_handshake retrieve_out_data
  start bound_port interval a =
      let (out, conn) = retrieve_out_data (send_handshake fb (handshake_args bound_port) new) in
      if a.handshake_written
      then elim a.response [
        | none ↦ returns (err no_response)
        | some response ↦ respond interval a out conn response
      ]
      else returns (err handshake_not_sent)
