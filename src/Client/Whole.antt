-- ===== src/Client/Whole.antt =====
-- `main` of main.rs from the arguments to the loop, over either platform's device.
pub mod Laws
use Prim.Native.String.{String}
use vita_oxi_pad.Base.{
  ℕ, Bool, true, false, List, Option, none, some, Result, ok, err, Outcome, panics, returns,
}
use vita_oxi_pad.NetProtocol.{FlatBuffers}
use vita_oxi_pad.Client.Settings.{
  Surroundings, Args, Plan, Decision, connects, decide, prints_sample, prints_version,
  lacks_address, load_failed, bad_address,
}
use vita_oxi_pad.Client.Sockets.{
  Sockets, SocketError, open_sockets, Poller, PollerError, open_poller,
}
use vita_oxi_pad.Client.Startup.{Answers, StartError, device_not_created, Started, start}
use vita_oxi_pad.Client.Session.{VirtualDevice, Failure, Round, Session, turns}

-- The `VitaDevice` that lib.rs passes on: how it is created by a configuration's name, with its
-- error, and how it takes reports.
pub record Platform (D C E : Type 0) : Type 0 where
  pub create : String → Result D C
  pub device : VirtualDevice D E

-- What a run of the client is given beyond the settings: what the system answers to the making of the
-- sockets and of the poller and to the start-up, where `device_created` is not read, the time at which
-- the loop begins, and the turns of the loop.
pub record Outside : Type 0 where
  pub sockets : Sockets
  pub poller : Poller
  pub opened : ℕ
  pub answers : Answers
  pub rounds : List Round

-- How far a run comes: it ends before it connects, it panics on the way to the loop, the
-- sockets, the start-up or the poller fail, or the turns of the loop are run.
pub data Run (A X Invalid D E : Type 0) : Type 0 where
  stopped : Decision A X → Run A X Invalid D E
  panicked : Run A X Invalid D E
  no_sockets : SocketError → Run A X Invalid D E
  not_started : StartError Invalid → Run A X Invalid D E
  no_poller : PollerError → Run A X Invalid D E
  ran : Option (Outcome (Result (Session D) (Failure E))) → Run A X Invalid D E

abbrev pub is_ok : {A B : Type 0} → Result A B → Bool
is_ok (ok a) = true
is_ok (err b) = false

-- `last_time`, `device` and `last_timestamp` before the loop.
abbrev pub opened_session : {D : Type 0} → Started → D → ℕ → Session D
opened_session s device opened = record {
  conn = s.conn;
  feed = record { device = device; last_timestamp = 0 };
  last_time = opened;
  written = s.control;
}

module _ {A P X Invalid D C E : Type 0} (parse_address : String → Option A)
    (around : Surroundings P X) (fb : FlatBuffers Invalid) (platform : Platform D C E) where
  -- From the start-up's result on.
  unfoldable pub run_loop :
      Result D C → Outside → Outcome (Result Started (StartError Invalid)) → Run A X Invalid D E
  unfolding open_poller
  run_loop created out panics = panicked
  run_loop created out (returns (err e)) = not_started e
  run_loop (err c) out (returns (ok s)) = not_started device_not_created
  run_loop (ok device) out (returns (ok s)) = elim (open_poller out.poller) [
    | err e ↦ no_poller e
    | ok u ↦
        ran (
          turns fb platform.device s.heartbeat_freq out.rounds (opened_session s device out.opened))
  ]

  -- From a plan on.
  unfoldable pub connect : Plan A → Outside → Run A X Invalid D E
  unfolding open_sockets run_loop
  connect plan out = elim (open_sockets out.sockets) [
    | panics ↦ panicked
    | returns (err e) ↦ no_sockets e
    | returns (ok bound_port) ↦
        let created = platform.create plan.configuration in
        run_loop created out (
          start fb bound_port plan.interval (record out.answers { device_created = is_ok created }))
  ]

  unfoldable pub client : Args → Outside → Run A X Invalid D E
  unfolding decide connect
  client args out = elim (decide parse_address around args) [
    | panics ↦ panicked
    | returns (connects plan) ↦ connect plan out
    | returns (prints_sample) ↦ stopped prints_sample
    | returns (prints_version) ↦ stopped prints_version
    | returns (lacks_address) ↦ stopped lacks_address
    | returns (load_failed e) ↦ stopped (load_failed e)
    | returns (bad_address s) ↦ stopped (bad_address s)
  ]
