-- ===== src/Protocol/Events.antt =====
-- client/packages/protocol/src/events.rs.
use vita_oxi_pad.Base.{ℕ}
use vita_oxi_pad.NetProtocol
use vita_oxi_pad.NetProtocol.{Endpoint}
use vita_oxi_pad.Reports.{MainReport}

pub record Handshake : Type 0 where
  pub endpoint : Endpoint
  pub port : ℕ
  pub heartbeat_freq : ℕ

-- `From<net_protocol::Handshake> for Handshake`
unfoldable pub handshake_from : NetProtocol.Handshake → Handshake
handshake_from h = record {
  endpoint = h.endpoint;
  port = h.port;
  heartbeat_freq = h.heartbeat_freq;
}

pub data Event : Type 0 where
  handshake_response_received : Handshake → Event
  heartbeat_received : Event
  pad_data_received : MainReport → Event
