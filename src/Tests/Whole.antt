-- ===== src/Tests/Whole.antt =====
-- A buffer with a handshake, a heartbeat and a pad, handled with a new Linux device.
use vita_oxi_pad.Base.{ℕ, suc, ◌≡◌, refl, List, [], ◌∷◌, ◌++◌, some, ok, returns, length}
use vita_oxi_pad.Protocol.Connection.{next}
use vita_oxi_pad.Protocol.Connection.Stream.{stream, items_of, messages}
use vita_oxi_pad.VirtualDevice.Config.{Config, rear_top_rl2_bottom_rl3_front_touchpad}
use vita_oxi_pad.VirtualDevice.Touch.{TouchZone}
use vita_oxi_pad.VirtualDevice.Linux.Report.{new_device}
use vita_oxi_pad.VirtualDevice.Linux.Report.Laws.{untouched, new_device-InSync}
use vita_oxi_pad.Client.Session.{handle_events}
use vita_oxi_pad.Client.Session.Accepted.{accepted, newest}
use vita_oxi_pad.Client.Session.Linux.{linux, AllReported, messages_shown}
use vita_oxi_pad.Tests.Wire.{toy, talk, talk-Delivers}
use vita_oxi_pad.Tests.Gamepad.{Box, boxes, in_order, plain_floats}

abbrev front_pad : Config (List (TouchZone Box))
front_pad = rear_top_rl2_bottom_rl3_front_touchpad boxes

messages_shown_example :
    (q : AllReported boxes in_order plain_floats ℕ
      (accepted 0 (items_of toy talk))
      (new_device front_pad)
      untouched)
    × (handle_events toy
          (linux boxes in_order plain_floats ℕ)
          (suc (length (stream toy (messages toy talk) ++ (9 ∷ []))))
          (stream toy (messages toy talk) ++ (9 ∷ []))
          (record { device = (new_device front_pad, untouched); last_timestamp = 0 })
        ≡ some (
            returns (
              ok (
                record {
                  device = (q.after, q.readers);
                  last_timestamp = newest 0 (accepted 0 (items_of toy talk));
                },
                9 ∷ [],
              ))))
messages_shown_example =
    messages_shown boxes in_order plain_floats ℕ toy talk (9 ∷ []) (9 ∷ []) (new_device front_pad)
      untouched 0 talk-Delivers (unfold next in refl) (new_device-InSync front_pad).0
      (new_device-InSync front_pad).1
