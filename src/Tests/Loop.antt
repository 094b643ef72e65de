-- ===== src/Tests/Loop.antt =====
-- Turns of the loop in main.rs, with a device that keeps the time stamps it is sent.
use vita_oxi_pad.Base.{
  ℕ, suc, ◌≡◌, refl, true, List, [], ◌∷◌, ◌++◌, some, ok, returns, arith, length,
}
use vita_oxi_pad.Protocol.Bytes.{heartbeat_magic}
use vita_oxi_pad.Protocol.Connection.{next}
use vita_oxi_pad.Protocol.Connection.Stream.{stream, items_of, messages, events-stream}
use vita_oxi_pad.Client.Session.{
  VirtualDevice, Round, Session, datagram, would_block, handle_events, receive, turn, turns,
  poll_timeout,
}
use vita_oxi_pad.Client.Session.Accepted.{accepted, Increasing, newest}
use vita_oxi_pad.Client.Session.Pads.{handle_events_refines}
use vita_oxi_pad.Client.Session.Beats.{beat_due}
use vita_oxi_pad.Client.Session.Turns.{Ended, turns-Ended}
use vita_oxi_pad.Tests.Wire.{toy, talk, talk-Delivers}

abbrev recorder : VirtualDevice (List ℕ) ℕ
recorder = record { send_report = λ r d. returns (ok (r.timestamp ∷ d)) }

abbrev received : List ℕ
received = stream toy (messages toy talk) ++ (9 ∷ [])

handle_events_refines_example :
    (handle_events toy recorder
        (suc (length received))
        received
        (record { device = 5 ∷ []; last_timestamp = 5 })
      ≡ some (
          returns (
            ok (
              record {
                device = 17 ∷ 5 ∷ [];
                last_timestamp = newest 5 (accepted 5 (items_of toy talk));
              },
              9 ∷ [],
            ))))
    × Increasing 5 (accepted 5 (items_of toy talk))
handle_events_refines_example =
    handle_events_refines toy recorder received (9 ∷ []) (items_of toy talk) (5 ∷ []) (17 ∷ 5 ∷ [])
      5 (events-stream toy talk (9 ∷ []) (9 ∷ []) talk-Delivers (unfold next in refl)) refl

abbrev begun : Session (List ℕ)
begun = record {
  conn = record { incoming_buffer = []; outgoing_buffer = [] };
  feed = record { device = []; last_timestamp = 0 };
  last_time = 1000000000;
  written = [];
}

-- Thirty seconds after the last heartbeat.
abbrev late : Round
late = record {
  asked = 2000000000;
  woke = 31000000000;
  stamped = 31000000001;
  polled = true;
  writes = true;
  readable = true;
  received = datagram received;
}

abbrev idle : Round
idle = record {
  asked = 31500000000;
  woke = 32000000000;
  stamped = 32000000000;
  polled = true;
  writes = true;
  readable = true;
  received = would_block;
}

turns-Ended_example : Ended {E = ℕ} begun (turns toy recorder 30 (late ∷ idle ∷ []) begun)
turns-Ended_example = turns-Ended toy recorder 30 (late ∷ idle ∷ []) begun refl

beat_due_example :
    turn toy recorder 30 late begun
    ≡ receive toy recorder late
        (record begun { last_time = 31000000001; written = [] ++ heartbeat_magic })
unfolding poll_timeout
beat_due_example = beat_due toy recorder 30 late begun (omega arith) (omega arith) refl refl refl
