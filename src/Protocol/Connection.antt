-- ===== src/Protocol/Connection.antt =====
-- client/packages/protocol/src/connection.rs: the buffers of a connection and the iterator over the
-- events that the incoming one holds. `none` from `next` ends the iterator; `panics` is the panic of
-- `Vec::drain` on a range past the end.
pub mod Next
pub mod Stream
pub mod Loopback
use vita_oxi_pad.Base.{
  ℕ, zero, suc, ◌+◌, ◌-◌, ◌==◌, ◌||◌, min, List, [], ◌∷◌, ◌++◌, Option, none, some, Result, ok, err,
  Outcome, panics, returns, ltb, if◌then◌else◌, length, take, drop,
}
use vita_oxi_pad.NetProtocol
use vita_oxi_pad.NetProtocol.{FlatBuffers, Packet, PacketContent, handshake_content, config_content}
use vita_oxi_pad.Reports.{try_from}
use vita_oxi_pad.Protocol.Events.{
  Event, handshake_from, handshake_response_received, heartbeat_received, pad_data_received,
}
use vita_oxi_pad.Protocol.Bytes.{
  offset_size, heartbeat_size, heartbeat_magic, front_is, from_le_bytes,
}

pub record Connection : Type 0 where
  pub incoming_buffer : List ℕ
  pub outgoing_buffer : List ℕ

-- `Connection::new`
unfoldable pub new : Connection
new = record { incoming_buffer = []; outgoing_buffer = [] }

unfoldable pub receive_data : List ℕ → Connection → Connection
receive_data bytes c = record c { incoming_buffer = c.incoming_buffer ++ bytes }

-- `retrieve_out_data().collect()`: the bytes, and the connection with nothing left to send.
unfoldable pub retrieve_out_data : Connection → List ℕ × Connection
retrieve_out_data c = (c.outgoing_buffer, record c { outgoing_buffer = [] })

unfoldable pub send_heartbeat : Connection → Connection
send_heartbeat c = record c { outgoing_buffer = c.outgoing_buffer ++ heartbeat_magic }

-- `ConnectionEventsError::InvalidPacket`
pub data ConnectionEventsError (Invalid : Type 0) : Type 0 where
  invalid_packet : Invalid → ConnectionEventsError Invalid

-- An item of the iterator.
abbrev pub Item : Type 0 → Type 0
Item Invalid = Result Event (ConnectionEventsError Invalid)

module _ {Invalid : Type 0} where
  -- The match on the packet's content type, with its `?` on a missing content and on a pad that is
  -- no report.
  unfoldable pub event_of : Packet → Option (Item Invalid)
  event_of p = elim p.content_type [
    | PacketContent.handshake ↦ elim p.content_as_handshake [
      | none ↦ none
      | some h ↦ some (ok (handshake_response_received (handshake_from h)))
    ]
    | PacketContent.pad ↦ elim p.content_as_pad [
      | none ↦ none
      | some pad ↦ elim (try_from pad) [
        | ok report ↦ some (ok (pad_data_received report))
        | err _ ↦ none
      ]
    ]
    | _ ↦ none
  ]

  unfoldable pub item_of : Result Packet Invalid → Option (Item Invalid)
  unfolding event_of
  item_of (ok p) = event_of p
  item_of (err e) = some (err (invalid_packet e))

module _ {Invalid : Type 0} (fb : FlatBuffers Invalid) where
  unfoldable pub send_handshake : NetProtocol.Handshake → Connection → Connection
  send_handshake args c = record c {
    outgoing_buffer = c.outgoing_buffer ++ fb.finished_data (handshake_content args);
  }

  unfoldable pub send_config : NetProtocol.Config → Connection → Connection
  send_config args c = record c {
    outgoing_buffer = c.outgoing_buffer ++ fb.finished_data (config_content args);
  }

  -- `drain(..n).collect()`, then the packet in it.
  unfoldable pub drain_packet : ℕ → List ℕ → Outcome (Option (Item Invalid) × List ℕ)
  unfolding item_of
  drain_packet n bytes =
      if ltb (length bytes) n
      then panics
      else returns (item_of (fb.size_prefixed_root_as_packet (take n bytes)), drop n bytes)

  -- `ConnectionEvents::next` over the incoming buffer: the item and the buffer that is left.
  unfoldable pub next : List ℕ → Outcome (Option (Item Invalid) × List ℕ)
  unfolding drain_packet
  next bytes =
      let size = from_le_bytes (take offset_size bytes) in
      if ltb (length bytes) (min offset_size heartbeat_size)
      then returns (none, bytes)
      else if front_is heartbeat_size heartbeat_magic bytes
      then returns (some (ok heartbeat_received), drop heartbeat_size bytes)
      else if size == 0 || ltb (length (drop (offset_size - 1) bytes)) size
      then returns (none, bytes)
      else drain_packet (offset_size + size) bytes

  -- `for event in conn.events()`: the items up to the first `none`, and the buffer that is left.
  -- `none` means that the fuel ran out; each item takes a byte at least (`Connection/Next`).
  unfoldable pub events_loop : ℕ → List ℕ → Option (Outcome (List (Item Invalid) × List ℕ))
  events_loop zero bytes = none
  events_loop (suc fuel) bytes = elim (next bytes) [
    | panics ↦ some panics
    | returns (none, rest) ↦ some (returns ([], rest))
    | returns (some item, rest) ↦ elim (events_loop fuel rest) [
      | none ↦ none
      | some panics ↦ some panics
      | some (returns (items, rest')) ↦ some (returns (item ∷ items, rest'))
    ]
  ]

  unfoldable pub events : List ℕ → Option (Outcome (List (Item Invalid) × List ℕ))
  events bytes = events_loop (suc (length bytes)) bytes
