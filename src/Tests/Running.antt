-- ===== src/Tests/Running.antt =====
-- A run of the whole client on Linux, with two turns of the loop.
use Prim.Native.String.{String}
use vita_oxi_pad.Base.{some, Option, none, arith, ℕ, refl, [], ◌∷◌, true}
use vita_oxi_pad.Protocol.Connection.Stream.{stream, messages}
use vita_oxi_pad.VirtualDevice.Config.{front_top_rl2_bottom_rl3_rear_touchpad}
use vita_oxi_pad.VirtualDevice.Linux.Report.{Handle}
use vita_oxi_pad.Client.Session.{Round, datagram, would_block}
use vita_oxi_pad.Tests.Wire.{a_handshake, handshake_Frames, toy, talk, talk-Delivers}
use vita_oxi_pad.NetProtocol.{handshake_content}
use vita_oxi_pad.VirtualDevice.Linux.Setup.{config_named}
use vita_oxi_pad.VirtualDevice.Linux.Setup.Abilities.{Kernel}
use vita_oxi_pad.Client.Settings.{load_config}
use vita_oxi_pad.Client.Whole.{client}
use vita_oxi_pad.Client.Whole.Laws.{smooth, linux_platform, Serves, client-Serves}
use vita_oxi_pad.Tests.Settings.{home, found, arguments}
use vita_oxi_pad.Tests.Gamepad.{boxes, in_order, plain_floats}

-- Thirty seconds after the last heartbeat.
abbrev late : Round
late = record {
  asked = 2000000000;
  woke = 31000000000;
  stamped = 31000000001;
  polled = true;
  writes = true;
  readable = true;
  received = datagram (stream toy (messages toy talk));
}

abbrev idle : Round
idle = record {
  asked = 31500000000;
  woke = 32000000000;
  stamped = 32000000000;
  polled = true;
  writes = true;
  readable = true;
  received = would_block;
}

abbrev nameless : Handle → Kernel → Option String
nameless h k = none

client-Serves_example : Serves toy (front_top_rl2_bottom_rl3_rear_touchpad boxes) 5001 4000 (
    client {A = ℕ}
      (λ s. some 7)
      home
      toy
      (linux_platform boxes in_order plain_floats ℕ nameless)
      arguments
      (smooth 5001 1000000000
        (toy.finished_data (handshake_content a_handshake))
        (late ∷ idle ∷ [])))
unfolding load_config config_named
client-Serves_example =
    client-Serves {A = ℕ} (λ s. some 7) home boxes in_order plain_floats ℕ nameless toy arguments
      found "10.0.0.7" 7 (front_top_rl2_bottom_rl3_rear_touchpad boxes) a_handshake 5001 1000000000
      (late ∷ idle ∷ []) refl refl refl refl refl refl handshake_Frames
      (omega arith, omega arith, omega arith, (omega arith, omega arith, omega arith, tt))
      ((refl, refl, (talk, talk-Delivers, refl)), ((refl, refl, tt), tt))
