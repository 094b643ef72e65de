-- ===== src/Client/Sockets.antt =====
-- The sockets and the poller that main.rs makes. What the system answers to each call is given.
use vita_oxi_pad.Base.{
  ℕ, Bool, Option, none, some, Result, ok, err, Outcome, panics, returns, if◌then◌else◌,
}

-- The control socket's connection, the pad socket's binding and its non-blocking mode, and the port
-- that it is bound to.
pub record Sockets : Type 0 where
  pub connected : Bool
  pub bound : Bool
  pub nonblocking : Bool
  pub local_port : Option ℕ

pub data SocketError : Type 0 where
  not_connected not_bound not_nonblocking : SocketError

-- The port of the pad socket, by each `?` and the `expect`.
unfoldable pub open_sockets : Sockets → Outcome (Result ℕ SocketError)
open_sockets a =
    if a.connected
    then if a.bound
      then if a.nonblocking
        then elim a.local_port [ none ↦ panics | some port ↦ returns (ok port) ]
        else returns (err not_nonblocking)
      else returns (err not_bound)
    else returns (err not_connected)

-- If the poller is made, and if the pad socket is added to it.
pub record Poller : Type 0 where
  pub made : Bool
  pub added : Bool

pub data PollerError : Type 0 where
  not_made not_added : PollerError

unfoldable pub open_poller : Poller → Result (Unit {0}) PollerError
open_poller a = if a.made then if a.added then ok tt else err not_added else err not_made
