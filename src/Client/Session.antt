-- ===== src/Client/Session.antt =====
-- The loop of main.rs. The virtual device is the trait `VitaVirtualDevice`, as an interface.
pub mod Accepted
pub mod Pads
pub mod Beats
pub mod Feeding
pub mod Linux
pub mod Running
pub mod Turns
use vita_oxi_pad.Base.{
  ℕ, zero, suc, ◌+◌, ◌-◌, ◌/◌, ◌==◌, Bool, true, false, List, [], ◌∷◌, ◌++◌, Option, none, some,
  Result, ok, err, Outcome, panics, returns, ltb, leb, if◌then◌else◌, length,
}
use vita_oxi_pad.NetProtocol.{FlatBuffers}
use vita_oxi_pad.Reports.{MainReport}
use vita_oxi_pad.Protocol.Events.{
  Event, handshake_response_received, heartbeat_received, pad_data_received,
}
use vita_oxi_pad.Protocol.Bytes.{heartbeat_magic}
use vita_oxi_pad.Protocol.Connection.{
  Connection, Item, next, receive_data, send_heartbeat, retrieve_out_data,
}

-- What the loop uses of `VitaVirtualDevice`: `send_report` with its `?`.
pub record VirtualDevice (D E : Type 0) : Type 0 where
  pub send_report : MainReport → D → Outcome (Result D E)

-- Why the program ends.
pub data Failure (E : Type 0) : Type 0 where
  send_report_failed : E → Failure E
  poll_failed : Failure E
  write_failed : Failure E
  receive_failed : Failure E

-- What the loop over the events changes.
pub record Feed (D : Type 0) : Type 0 where
  pub device : D
  pub last_timestamp : ℕ

-- `heartbeat_freq.saturating_sub(5)`; `-` on ℕ stops at 0 as it does.
abbrev pub threshold : ℕ → ℕ
threshold heartbeat_freq = heartbeat_freq - 5

-- The timeout of a poll in seconds, by the seconds since the last heartbeat.
unfoldable pub poll_timeout : (heartbeat_freq elapsed : ℕ) → ℕ
poll_timeout heartbeat_freq elapsed = threshold heartbeat_freq - elapsed

module _ {D E Invalid : Type 0} (dev : VirtualDevice D E) where
  -- The body of `for event in conn.events()`. An error in the data is printed and passed over.
  unfoldable pub handle_item : Item Invalid → Feed D → Outcome (Result (Feed D) (Failure E))
  handle_item (ok (pad_data_received report)) f =
      if leb report.timestamp f.last_timestamp
      then returns (ok f)
      else elim (dev.send_report report f.device) [
        | panics ↦ panics
        | returns (err e) ↦ returns (err (send_report_failed e))
        | returns (ok device) ↦
            returns (ok (record { device = device; last_timestamp = report.timestamp }))
      ]
  handle_item (ok (handshake_response_received h)) f = returns (ok f)
  handle_item (ok heartbeat_received) f = returns (ok f)
  handle_item (err e) f = returns (ok f)

module _ {D E Invalid : Type 0} (fb : FlatBuffers Invalid) (dev : VirtualDevice D E) where
  -- The whole `for` loop over the incoming buffer; the outer `none` means that the fuel ran out.
  unfoldable pub handle_events :
      ℕ → List ℕ → Feed D → Option (Outcome (Result (Feed D × List ℕ) (Failure E)))
  handle_events zero bytes f = none
  handle_events (suc fuel) bytes f = elim (next fb bytes) [
    | panics ↦ some panics
    | returns (none, rest) ↦ some (returns (ok (f, rest)))
    | returns (some item, rest) ↦ elim (handle_item dev item f) [
      | panics ↦ some panics
      | returns (err e) ↦ some (returns (err e))
      | returns (ok f') ↦ handle_events fuel rest f'
    ]
  ]

-- What `recv_from` gives: the bytes that it put into the buffer, `WouldBlock`, or another error.
pub data Received : Type 0 where
  datagram : List ℕ → Received
  would_block : Received
  failed : Received

-- `.or_else(filter_udp_nonblocking_error)`, as the bytes of `&buf[..len]`.
unfoldable pub filter_udp_nonblocking_error : {E : Type 0} → Received → Result (List ℕ) (Failure E)
filter_udp_nonblocking_error (datagram bytes) = ok bytes
filter_udp_nonblocking_error would_block = ok []
filter_udp_nonblocking_error failed = err receive_failed

-- What the system answers in one turn of the loop: the clock before the poll, when the poll ends, and
-- past the heartbeat, in nanoseconds; if the poll works; if `write_all` works; if the poll gave an
-- event; and what the socket holds then.
pub record Round : Type 0 where
  pub asked : ℕ
  pub woke : ℕ
  pub stamped : ℕ
  pub polled : Bool
  pub writes : Bool
  pub readable : Bool
  pub received : Received

-- What the loop changes, with the bytes that the control socket has taken.
pub record Session (D : Type 0) : Type 0 where
  pub conn : Connection
  pub feed : Feed D
  pub last_time : ℕ
  pub written : List ℕ

-- `Duration::as_secs` of a duration in nanoseconds.
abbrev pub as_secs : ℕ → ℕ
as_secs nanoseconds = nanoseconds / 1000000000

-- `SystemTime::elapsed`, which is an error when the clock is behind.
unfoldable pub elapsed : (since now : ℕ) → Option ℕ
elapsed since now = if leb since now then some (now - since) else none

module _ {D E : Type 0} where
  -- The poll, with the `unwrap` on the time since the last heartbeat; it gives its timeout.
  unfoldable pub poll : (heartbeat_freq : ℕ) → Round → Session D → Outcome (Result ℕ (Failure E))
  unfolding elapsed poll_timeout
  poll heartbeat_freq r s = elim (elapsed s.last_time r.asked) [
    | none ↦ panics
    | some since ↦
        if r.polled
        then returns (ok (poll_timeout heartbeat_freq (as_secs since)))
        else returns (err poll_failed)
  ]

  -- The heartbeat of a turn, with the `expect` on the time since the last one.
  unfoldable pub beat :
      (heartbeat_freq : ℕ) → Round → Session D → Outcome (Result (Session D) (Failure E))
  unfolding elapsed send_heartbeat retrieve_out_data
  beat heartbeat_freq r s =
      let (out, conn) = retrieve_out_data (send_heartbeat s.conn) in
      elim (elapsed s.last_time r.woke) [
        | none ↦ panics
        | some since ↦
            if leb (threshold heartbeat_freq) (as_secs since)
            then if r.writes
              then returns
                  (ok (record s { conn = conn; last_time = r.stamped; written = s.written ++ out }))
              else returns (err write_failed)
            else returns (ok s)
      ]

module _ {D E Invalid : Type 0} (fb : FlatBuffers Invalid) (dev : VirtualDevice D E) where
  -- `conn.receive_data(received_data)` and the loop over the events.
  unfoldable pub take_in : List ℕ → Session D → Option (Outcome (Result (Session D) (Failure E)))
  unfolding handle_events receive_data
  take_in bytes s =
      let conn = receive_data bytes s.conn in
      elim (handle_events fb dev (suc (length conn.incoming_buffer)) conn.incoming_buffer s.feed) [
        | none ↦ none
        | some panics ↦ some panics
        | some (returns (err e)) ↦ some (returns (err e))
        | some (returns (ok (feed, rest))) ↦
            some (
              returns
                (ok (record s { conn = record conn { incoming_buffer = rest }; feed = feed })))
      ]

  unfoldable pub receive : Round → Session D → Option (Outcome (Result (Session D) (Failure E)))
  unfolding filter_udp_nonblocking_error take_in
  receive r s =
      if r.readable
      then elim (filter_udp_nonblocking_error r.received) [
        | err e ↦ some (returns (err e))
        | ok [] ↦ some (returns (ok s))
        | ok (b ∷ bytes) ↦ take_in (b ∷ bytes) s
      ]
      else some (returns (ok s))

  -- One turn of the loop.
  unfoldable pub turn :
      (heartbeat_freq : ℕ) → Round → Session D → Option (Outcome (Result (Session D) (Failure E)))
  unfolding poll beat receive
  turn heartbeat_freq r s = elim (poll {E = E} heartbeat_freq r s) [
    | panics ↦ some panics
    | returns (err e) ↦ some (returns (err e))
    | returns (ok timeout) ↦ elim (beat heartbeat_freq r s) [
      | panics ↦ some panics
      | returns (err e) ↦ some (returns (err e))
      | returns (ok s') ↦ receive r s'
    ]
  ]

  -- The turns of a run, as far as the loop goes on.
  unfoldable pub turns :
      (heartbeat_freq : ℕ)
      → List Round
      → Session D
      → Option (Outcome (Result (Session D) (Failure E)))
  turns heartbeat_freq [] s = some (returns (ok s))
  turns heartbeat_freq (r ∷ rs) s = elim (turn heartbeat_freq r s) [
    | none ↦ none
    | some panics ↦ some panics
    | some (returns (err e)) ↦ some (returns (err e))
    | some (returns (ok s')) ↦ turns heartbeat_freq rs s'
  ]
