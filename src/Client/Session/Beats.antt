-- ===== src/Client/Session/Beats.antt =====
-- The heartbeat of a turn of the loop in main.rs, by the timeout of its poll.
use vita_oxi_pad.Base.{ℕ, ◌+◌, ◌*◌, ◌-◌, ◌≤◌, ◌≡◌, refl, true, [], ◌++◌, ok, returns, arith, leb}
use vita_oxi_pad.NetProtocol.{FlatBuffers}
use vita_oxi_pad.Protocol.Bytes.{heartbeat_magic}
use vita_oxi_pad.Protocol.Connection.{send_heartbeat, retrieve_out_data}
use vita_oxi_pad.Client.Session.{
  VirtualDevice, Round, Session, threshold, poll_timeout, as_secs, poll, beat, receive, turn,
}
use vita_oxi_pad.Client.Session.Turns.{elapsed_forward, turn_polled}

-- The time since the last heartbeat after a poll that has lasted its timeout.
waited :
    (heartbeat_freq since asked woke : ℕ)
    → since ≤ asked
    → asked + poll_timeout heartbeat_freq (as_secs (asked - since)) * 1000000000 ≤ woke
    → leb (threshold heartbeat_freq) (as_secs (woke - since)) ≡ true
unfolding poll_timeout
waited heartbeat_freq since asked woke l h = ground arith

module _ {D E Invalid : Type 0} (fb : FlatBuffers Invalid) (dev : VirtualDevice D E) where
  -- When the clock is not behind the last heartbeat before the poll, the poll works and lasts at least
  -- as long as the timeout that it is given, the write works and nothing else waits to be sent, the
  -- turn writes the heartbeat's magic number alone, leaves nothing to send, renews the time of the last
  -- heartbeat, and goes on to the pad socket.
  pub beat_due :
      (heartbeat_freq : ℕ) (r : Round) (s : Session D)
      → s.last_time ≤ r.asked
      → r.asked + poll_timeout heartbeat_freq (as_secs (r.asked - s.last_time)) * 1000000000
        ≤ r.woke
      → r.polled ≡ true
      → r.writes ≡ true
      → s.conn.outgoing_buffer ≡ []
      → turn fb dev heartbeat_freq r s
        ≡ receive fb dev r
            (record s { last_time = r.stamped; written = s.written ++ heartbeat_magic })
  unfolding poll beat send_heartbeat retrieve_out_data
  beat_due heartbeat_freq r s l h p w o =
      let polled : poll {E = E} heartbeat_freq r s
          ≡ returns (ok (poll_timeout heartbeat_freq (as_secs (r.asked - s.last_time)))) =
        rw (elapsed_forward s.last_time r.asked l, poll) (rw p refl) in
      let late = waited heartbeat_freq s.last_time r.asked r.woke l h in
      let beaten : beat {E = E} heartbeat_freq r s
          ≡ returns
              (ok (record s { last_time = r.stamped; written = s.written ++ heartbeat_magic })) =
        rw (elapsed_forward s.last_time r.woke (omega arith), beat) (rw (late, w, o) refl) in
      turn_polled fb dev heartbeat_freq _ r s _ polled beaten
