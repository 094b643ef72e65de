-- ===== src/Protocol/Connection/Loopback.antt =====
-- The sending half of a connection, and what a peer reads of it.
use vita_oxi_pad.Base.{
  ◌≡◌, refl, ◌∙◌, ap, List, [], ◌∷◌, ◌++◌, map, none, some, returns, All, append_assoc, append-nil,
}
use vita_oxi_pad.NetProtocol
use vita_oxi_pad.NetProtocol.{FlatBuffers, handshake_content, config_content}
use vita_oxi_pad.Protocol.Events.{Event}
use vita_oxi_pad.Protocol.Connection.{
  Connection, new, receive_data, retrieve_out_data, send_heartbeat, send_handshake, send_config,
  next, events,
}
use vita_oxi_pad.Protocol.Connection.Stream.{
  Message, heartbeat, packet, encode, stream, Delivers, items_of, messages, events-stream,
}

-- A call of one of the three `send_` methods.
pub data Send : Type 0 where
  handshakes : NetProtocol.Handshake → Send
  configs : NetProtocol.Config → Send
  heartbeats : Send

abbrev pub message_of : Send → Message
message_of (handshakes args) = packet (handshake_content args)
message_of (configs args) = packet (config_content args)
message_of heartbeats = heartbeat

module _ {Invalid : Type 0} (fb : FlatBuffers Invalid) where
  abbrev pub send : Send → Connection → Connection
  send (handshakes args) c = send_handshake fb args c
  send (configs args) c = send_config fb args c
  send heartbeats c = send_heartbeat c

  abbrev pub sends : List Send → Connection → Connection
  sends [] c = c
  sends (s ∷ ss) c = sends ss (send s c)

  send_appends :
      (s : Send) (c : Connection)
      → send s c ≡ record c { outgoing_buffer = c.outgoing_buffer ++ encode fb (message_of s) }
  unfolding send_handshake send_config send_heartbeat
  send_appends (handshakes args) c = refl
  send_appends (configs args) c = refl
  send_appends heartbeats c = refl

  -- A series of sends and then a retrieval: the bytes are those that were waiting and then the
  -- encodings of the sent messages in order, nothing is left to send, and what was received is
  -- untouched.
  pub retrieve_out_data-sends :
      (ss : List Send) (c : Connection)
      → retrieve_out_data (sends ss c)
        ≡ (c.outgoing_buffer ++ stream fb (map message_of ss), record c { outgoing_buffer = [] })
  unfolding retrieve_out_data
  retrieve_out_data-sends [] c = rw append-nil refl
  retrieve_out_data-sends (s ∷ ss) c =
      let out = c.outgoing_buffer ++ encode fb (message_of s) in
      ap (λ c'. retrieve_out_data (sends ss c')) (send_appends s c)
      ∙ retrieve_out_data-sends ss (record c { outgoing_buffer = out })
      ∙ ap (λ bytes. (bytes, record c { outgoing_buffer = [] }))
          (append_assoc c.outgoing_buffer (encode fb (message_of s))
            (stream fb (map message_of ss)))

  next-nil : next fb [] ≡ returns (none, [])
  unfolding next
  next-nil = refl

  -- What a new connection sends by a series of calls, a new connection that receives it reads as the
  -- events of those calls in order, with nothing left, if each message gives an event.
  pub loopback :
      (ss : List Send) (ms : List (Message × Event))
      → map message_of ss ≡ messages fb ms
      → All (Delivers fb) ms
      → events fb (receive_data (retrieve_out_data (sends ss new)).0 new).incoming_buffer
        ≡ some (returns (items_of fb ms, []))
  unfolding receive_data new
  loopback ss ms e a =
      rw
        (
          ap (λ r. r.0) (retrieve_out_data-sends ss new),
          e,
          ← append-nil (stream fb (messages fb ms)),
        )
        (events-stream fb ms [] [] a next-nil)
