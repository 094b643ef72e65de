-- ===== src/Client/Session/Running.antt =====
-- A run of the loop of main.rs with the Linux device, where the system does what it is asked.
use vita_oxi_pad.Base.{
  Option, Result, Outcome, arith, ℕ, ◌≤◌, suc, ◌-◌, ◌≡◌, ◌∙◌, refl, sym, ap, subst, Bool, true,
  false, List, [], ◌∷◌, ◌++◌, append-nil, none, some, ok, returns, All, length, leb, Bool-cases,
  inl, inr,
}
use vita_oxi_pad.NetProtocol.{FlatBuffers}
use vita_oxi_pad.Protocol.Events.{Event}
use vita_oxi_pad.Protocol.Connection.{next, receive_data, send_heartbeat, retrieve_out_data}
use vita_oxi_pad.Protocol.Bytes.{heartbeat_magic}
use vita_oxi_pad.Client.Session.Accepted.{accepted, newest}
use vita_oxi_pad.Client.Session.Turns.{elapsed_forward, turn_polled}
use vita_oxi_pad.Protocol.Connection.Stream.{items_of, Message, stream, Delivers, messages}
use vita_oxi_pad.VirtualDevice.Button.{Iteration}
use vita_oxi_pad.VirtualDevice.Touch.{Rstar}
use vita_oxi_pad.VirtualDevice.Floats.{Floats}
use vita_oxi_pad.VirtualDevice.Linux.Report.{VitaDevice, WriteError}
use vita_oxi_pad.VirtualDevice.Linux.Report.Readers.{Readers, IsValid}
use vita_oxi_pad.VirtualDevice.Linux.Report.Laws.{InSync}
use vita_oxi_pad.Client.Session.{
  Failure, Feed, Session, Round, Received, datagram, would_block, failed, poll_timeout, poll,
  threshold, as_secs, handle_events, filter_udp_nonblocking_error, beat, take_in, receive, turn,
  turns,
}
use vita_oxi_pad.Client.Session.Linux.{linux, messages_shown}

-- Nothing waits in the connection, the device is valid, and the readers agree with it.
pub record Calm {Tree : Type 0} (s : Session (VitaDevice Tree × Readers)) : Type 0 where
  pub no_input : s.conn.incoming_buffer ≡ []
  pub no_output : s.conn.outgoing_buffer ≡ []
  pub valid : IsValid s.feed.device.0
  pub synced : InSync s.feed.device.0 s.feed.device.1

-- The loop goes on from a session: to a calm one whose device has the same configuration.
pub record GoesOn {Tree E : Type 0} (s : Session (VitaDevice Tree × Readers))
    (o : Option (Outcome (Result (Session (VitaDevice Tree × Readers)) (Failure E)))) : Type 0 where
  pub after : Session (VitaDevice Tree × Readers)
  pub runs : o ≡ some (returns (ok after))
  pub calm : Calm after
  pub same_config : after.feed.device.0.config ≡ s.feed.device.0.config

-- The clock runs forward, from `now` through every turn.
abbrev pub Forward : ℕ → List Round → Type 0
Forward now [] = Unit {0}
Forward now (r ∷ rounds) =
    (now ≤ r.asked) × (r.asked ≤ r.woke) × (r.woke ≤ r.stamped) × Forward r.stamped rounds

-- What a heartbeat leaves of a calm session.
record Beaten {Tree E : Type 0} (r : Round) (s : Session (VitaDevice Tree × Readers))
    (o : Outcome (Result (Session (VitaDevice Tree × Readers)) (Failure E))) : Type 0 where
  mid : Session (VitaDevice Tree × Readers)
  runs : o ≡ returns (ok mid)
  calm : Calm mid
  same_config : mid.feed.device.0.config ≡ s.feed.device.0.config
  renewed : mid.last_time ≤ r.stamped

module _ {Tree E : Type 0} where
  poll_goes_on :
      (freq : ℕ) (r : Round) (s : Session (VitaDevice Tree × Readers))
      → s.last_time ≤ r.asked
      → r.polled ≡ true
      → (timeout : ℕ) × (poll {E = E} freq r s ≡ returns (ok timeout))
  unfolding poll
  poll_goes_on freq r s h p = (
    poll_timeout freq (as_secs (r.asked - s.last_time)),
    rw (elapsed_forward s.last_time r.asked h, poll) (rw p refl),
  )

  beat-Beaten :
      (freq : ℕ) (r : Round) (s : Session (VitaDevice Tree × Readers))
      → s.last_time ≤ r.woke
      → r.woke ≤ r.stamped
      → r.writes ≡ true
      → Calm s
      → Beaten r s (beat {E = E} freq r s)
  unfolding beat send_heartbeat retrieve_out_data
  beat-Beaten freq r s h l w c =
      let n = elapsed_forward s.last_time r.woke h in
      elim (Bool-cases (leb (threshold freq) (as_secs (r.woke - s.last_time)))) [
        | inr e ↦ record {
          mid = s;
          runs = rw (n, beat) (rw e refl);
          calm = c;
          same_config = refl;
          renewed = omega arith;
        }
        | inl e ↦ record {
          mid = record s {
            conn = record s.conn { outgoing_buffer = [] };
            last_time = r.stamped;
            written = s.written ++ (s.conn.outgoing_buffer ++ heartbeat_magic);
          };
          runs = rw (n, beat) (rw (e, w) refl);
          calm = record {
            no_input = c.no_input;
            no_output = refl;
            valid = c.valid;
            synced = c.synced;
          };
          same_config = refl;
          renewed = omega arith;
        }
      ]

-- The loop goes on, and the time of the last heartbeat stays.
record KeepsTime {Tree E : Type 0} (s : Session (VitaDevice Tree × Readers))
    (o : Option (Outcome (Result (Session (VitaDevice Tree × Readers)) (Failure E)))) : Type 0 where
  goes_on : GoesOn s o
  same_time : goes_on.after.last_time ≡ s.last_time

module _ {Rect Tree Invalid : Type 0} (rs : Rstar Rect Tree) (order : Iteration) (fl : Floats)
    (E : Type 0) (fb : FlatBuffers Invalid) where
  -- A datagram of whole messages that each give an event.
  abbrev pub Whole : Received → Type 0
  Whole (datagram bytes) =
      (ms : List (Message × Event)) × All (Delivers fb) ms × (bytes ≡ stream fb (messages fb ms))
  Whole would_block = Unit {0}
  Whole failed = ⊥

  next-nil : next fb [] ≡ returns (none, [])
  unfolding next
  next-nil = refl

  take_in_run :
      (bytes rest : List ℕ) (s : Session (VitaDevice Tree × Readers))
      (f : Feed (VitaDevice Tree × Readers))
      → handle_events fb
          (linux rs order fl E)
          (suc (length (s.conn.incoming_buffer ++ bytes)))
          (s.conn.incoming_buffer ++ bytes)
          s.feed
        ≡ some (returns (ok (f, rest)))
      → take_in fb (linux rs order fl E) bytes s
        ≡ some
            (returns (ok (record s { conn = record s.conn { incoming_buffer = rest }; feed = f })))
  unfolding take_in receive_data
  take_in_run bytes rest s f e = rw (e, take_in) refl

  stays :
      (s : Session (VitaDevice Tree × Readers))
      → Calm s
      → KeepsTime {E = WriteError E} s (some (returns (ok s)))
  stays s c = record {
    goes_on = record { after = s; runs = refl; calm = c; same_config = refl };
    same_time = refl;
  }

  take_in-KeepsTime :
      (bytes : List ℕ) (s : Session (VitaDevice Tree × Readers))
      → Whole (datagram bytes)
      → Calm s
      → KeepsTime s (take_in fb (linux rs order fl E) bytes s)
  take_in-KeepsTime bytes s (ms, delivers, e) c =
      let (q, run) =
        messages_shown rs order fl E fb ms [] [] s.feed.device.0 s.feed.device.1
          s.feed.last_timestamp delivers next-nil c.valid c.synced in
      let same : s.conn.incoming_buffer ++ bytes ≡ stream fb (messages fb ms) ++ [] =
        ap (λ l. l ++ bytes) c.no_input ∙ e ∙ sym (append-nil (stream fb (messages fb ms))) in
      let f : Feed (VitaDevice Tree × Readers) = record {
        device = (q.after, q.readers);
        last_timestamp =
            newest s.feed.last_timestamp (accepted s.feed.last_timestamp (items_of fb ms));
      } in
      record {
        goes_on = record {
          after = record s { conn = record s.conn { incoming_buffer = [] }; feed = f };
          runs = take_in_run bytes [] s f (
              subst
                (λ l.
                  handle_events fb (linux rs order fl E) (suc (length l)) l s.feed
                  ≡ some (returns (ok (f, []))))
                (sym same) run);
          calm = record {
            no_input = refl;
            no_output = c.no_output;
            valid = q.valid;
            synced = q.synced;
          };
          same_config = q.same_config;
        };
        same_time = refl;
      }

  receive-KeepsTime :
      (asked woke stamped : ℕ) (polled writes readable : Bool) (x : Received)
      (s : Session (VitaDevice Tree × Readers))
      → Whole x
      → Calm s
      → KeepsTime s (
          receive fb
            (linux rs order fl E)
            (record {
              asked = asked;
              woke = woke;
              stamped = stamped;
              polled = polled;
              writes = writes;
              readable = readable;
              received = x;
            })
            s)
  unfolding receive filter_udp_nonblocking_error
  receive-KeepsTime asked woke stamped polled writes false x s w c = stays s c
  receive-KeepsTime asked woke stamped polled writes true would_block s w c = stays s c
  receive-KeepsTime asked woke stamped polled writes true failed s w c = elim w [ ]
  receive-KeepsTime asked woke stamped polled writes true (datagram []) s w c = stays s c
  receive-KeepsTime asked woke stamped polled writes true (datagram (b ∷ bytes)) s w c =
      take_in-KeepsTime (b ∷ bytes) s w c

  -- What a turn needs of the system beside the clock.
  abbrev pub Fine : Round → Type 0
  Fine r = (r.polled ≡ true) × (r.writes ≡ true) × Whole r.received

  turn-GoesOn :
      (freq : ℕ) (r : Round) (s : Session (VitaDevice Tree × Readers))
      → s.last_time ≤ r.asked
      → r.asked ≤ r.woke
      → r.woke ≤ r.stamped
      → Fine r
      → Calm s
      → (g : GoesOn s (turn fb (linux rs order fl E) freq r s)) × (g.after.last_time ≤ r.stamped)
  turn-GoesOn freq r s a b d (p, w, x) c =
      let (timeout, polled) = poll_goes_on {E = WriteError E} freq r s a p in
      let beaten = beat-Beaten {E = WriteError E} freq r s (omega arith) d w c in
      let q =
        receive-KeepsTime r.asked r.woke r.stamped r.polled r.writes r.readable r.received
          beaten.mid x beaten.calm in
      (
        record {
          after = q.goes_on.after;
          runs =
              turn_polled fb (linux rs order fl E) freq timeout r s _ polled beaten.runs
              ∙ q.goes_on.runs;
          calm = q.goes_on.calm;
          same_config = q.goes_on.same_config ∙ beaten.same_config;
        },
        omega (arith, q.same_time, beaten.renewed),
      )

  turns_cons :
      (freq : ℕ) (r : Round) (rest : List Round) (s s' : Session (VitaDevice Tree × Readers))
      → turn fb (linux rs order fl E) freq r s ≡ some (returns (ok s'))
      → turns fb (linux rs order fl E) freq (r ∷ rest) s
        ≡ turns fb (linux rs order fl E) freq rest s'
  unfolding turns
  turns_cons freq r rest s s' e = rw (e, turns) refl

  -- With a valid device whose readers agree with it, and nothing waiting in the connection, the loop
  -- runs through every turn of a run in which the clock runs forward from the last heartbeat on, the
  -- polls and the writes work and each datagram holds whole messages that give events: it neither
  -- panics nor fails, and at the end the device is valid with the same configuration, the readers agree
  -- with it, and nothing waits in the connection.
  pub turns-GoesOn :
      (freq now : ℕ) (rounds : List Round) (s : Session (VitaDevice Tree × Readers))
      → s.last_time ≤ now
      → Forward now rounds
      → All Fine rounds
      → Calm s
      → GoesOn s (turns fb (linux rs order fl E) freq rounds s)
  unfolding turns
  turns-GoesOn freq now [] s l f q c = (stays s c).goes_on
  turns-GoesOn freq now (r ∷ rest) s l (a, b, d, f) (x, q) c =
      let (first, time) = turn-GoesOn freq r s (omega arith) b d x c in
      let later = turns-GoesOn freq r.stamped rest first.after time f q first.calm in
      record {
        after = later.after;
        runs = turns_cons freq r rest s first.after first.runs ∙ later.runs;
        calm = later.calm;
        same_config = later.same_config ∙ first.same_config;
      }
