-- ===== src/Client/Session/Pads.antt =====
-- The loop over the events in main.rs: which reports reach the device.
use vita_oxi_pad.Base.{
  ℕ, zero, suc, ◌≡◌, refl, sym, ap, ◌∙◌, true, false, List, [], ◌∷◌, Option, none, some, Result, ok,
  err, Outcome, panics, returns, arith, leb, Bool-cases, inl, inr, length,
}
use vita_oxi_pad.NetProtocol.{FlatBuffers}
use vita_oxi_pad.Reports.{MainReport}
use vita_oxi_pad.Protocol.Events.{
  handshake_response_received, heartbeat_received, pad_data_received,
}
use vita_oxi_pad.Protocol.Connection.{Item, next, events_loop, events}
use vita_oxi_pad.Client.Session.Accepted.{
  accepted, Increasing, newest, send_all, accepted-Increasing,
}
use vita_oxi_pad.Client.Session.{VirtualDevice, Feed, handle_item, handle_events}

module _ {D E Invalid : Type 0} (fb : FlatBuffers Invalid) (dev : VirtualDevice D E) where
  handle_events_step :
      (fuel : ℕ) (bytes rest : List ℕ) (i : Item Invalid) (f f' : Feed D)
      → next fb bytes ≡ returns (some i, rest)
      → handle_item dev i f ≡ returns (ok f')
      → handle_events fb dev (suc fuel) bytes f ≡ handle_events fb dev fuel rest f'
  unfolding handle_events
  handle_events_step fuel bytes rest i f f' e h = rw (e, handle_events) (rw (h, handle_events) refl)

  handle_events_end :
      (fuel : ℕ) (bytes rest : List ℕ) (f : Feed D)
      → next fb bytes ≡ returns (none, rest)
      → handle_events fb dev (suc fuel) bytes f ≡ some (returns (ok (f, rest)))
  unfolding handle_events
  handle_events_end fuel bytes rest f e = rw (e, handle_events) refl

  uncons_loop :
      (fuel : ℕ) (bytes rest left : List ℕ) (i : Item Invalid) (items : List (Item Invalid))
      (o : Option (Outcome (List (Item Invalid) × List ℕ)))
      → next fb bytes ≡ returns (some i, rest)
      → events_loop fb fuel rest ≡ o
      → events_loop fb (suc fuel) bytes ≡ some (returns (items, left))
      → (is : List (Item Invalid)) × (items ≡ i ∷ is)
        × (events_loop fb fuel rest ≡ some (returns (is, left)))
  unfolding events_loop
  uncons_loop fuel bytes rest left i items none e o h = absurd (ground arith)
  uncons_loop fuel bytes rest left i items (some panics) e o h = absurd (ground arith)
  uncons_loop fuel bytes rest left i items (some (returns (is, l))) e o h =
      (is, ground arith, ground arith)

  loop_panics :
      (fuel : ℕ) (bytes : List ℕ)
      → next fb bytes ≡ panics
      → events_loop fb (suc fuel) bytes ≡ some panics
  unfolding events_loop
  loop_panics fuel bytes e = rw (e, events_loop) refl

  loop_end :
      (fuel : ℕ) (bytes rest : List ℕ)
      → next fb bytes ≡ returns (none, rest)
      → events_loop fb (suc fuel) bytes ≡ some (returns ([], rest))
  unfolding events_loop
  loop_end fuel bytes rest e = rw (e, events_loop) refl

  -- One item, as the accepted reports see it.
  record Handled (i : Item Invalid) (is : List (Item Invalid)) (d d' : D) (t : ℕ) : Type 0 where
    feed : Feed D
    handled : handle_item dev i (record { device = d; last_timestamp = t }) ≡ returns (ok feed)
    sends : send_all dev (accepted feed.last_timestamp is) feed.device ≡ returns (ok d')
    ends :
        newest feed.last_timestamp (accepted feed.last_timestamp is)
        ≡ newest t (accepted t (i ∷ is))

  handle_stale :
      (r : MainReport) (is : List (Item Invalid)) (d d' : D) (t : ℕ)
      → leb r.timestamp t ≡ true
      → send_all dev (accepted t (ok (pad_data_received r) ∷ is)) d ≡ returns (ok d')
      → Handled (ok (pad_data_received r)) is d d' t
  unfolding handle_item
  handle_stale r is d d' t e s = record {
    feed = record { device = d; last_timestamp = t };
    handled = rw e refl;
    sends = ground arith;
    ends = ground arith;
  }

  handle_fresh :
      (r : MainReport) (is : List (Item Invalid)) (d d' : D) (t : ℕ) (o : Outcome (Result D E))
      → leb r.timestamp t ≡ false
      → dev.send_report r d ≡ o
      → send_all dev (accepted t (ok (pad_data_received r) ∷ is)) d ≡ returns (ok d')
      → Handled (ok (pad_data_received r)) is d d' t
  unfolding handle_item
  handle_fresh r is d d' t panics e o s = absurd (ground arith)
  handle_fresh r is d d' t (returns (err x)) e o s = absurd (ground arith)
  handle_fresh r is d d' t (returns (ok d'')) e o s = record {
    feed = record { device = d''; last_timestamp = r.timestamp };
    handled = ground arith;
    sends = ground arith;
    ends = ground arith;
  }

  handle_item_Handled :
      (i : Item Invalid) (is : List (Item Invalid)) (d d' : D) (t : ℕ)
      → send_all dev (accepted t (i ∷ is)) d ≡ returns (ok d')
      → Handled i is d d' t
  unfolding handle_item
  handle_item_Handled (ok (handshake_response_received h)) is d d' t s = record {
    feed = record { device = d; last_timestamp = t };
    handled = refl;
    sends = s;
    ends = refl;
  }
  handle_item_Handled (ok heartbeat_received) is d d' t s = record {
    feed = record { device = d; last_timestamp = t };
    handled = refl;
    sends = s;
    ends = refl;
  }
  handle_item_Handled (err e) is d d' t s = record {
    feed = record { device = d; last_timestamp = t };
    handled = refl;
    sends = s;
    ends = refl;
  }
  handle_item_Handled (ok (pad_data_received r)) is d d' t s =
      elim (Bool-cases (leb r.timestamp t)) [
        | inl e ↦ handle_stale r is d d' t e s
        | inr e ↦ handle_fresh r is d d' t (dev.send_report r d) e refl s
      ]

  handle_events_ended :
      (fuel : ℕ) (bytes rest left : List ℕ) (items : List (Item Invalid)) (d d' : D) (t : ℕ)
      → next fb bytes ≡ returns (none, rest)
      → ◌≡◌ {A = Option (Outcome (List (Item Invalid) × List ℕ))}
          (some (returns ([], rest)))
          (some (returns (items, left)))
      → send_all dev (accepted t items) d ≡ returns (ok d')
      → handle_events fb dev (suc fuel) bytes (record { device = d; last_timestamp = t })
        ≡ some (
            returns
              (ok (record { device = d'; last_timestamp = newest t (accepted t items) }, left)))
  handle_events_ended fuel bytes rest left [] d d' t e h s =
      let r : rest ≡ left = ground arith in
      let q : d ≡ d' = ground arith in
      handle_events_end fuel bytes rest _ e
      ∙ ap (λ y. some (returns (ok (record { device = d; last_timestamp = t }, y)))) r
      ∙ ap (λ x. some (returns (ok (record { device = x; last_timestamp = t }, left)))) q
  handle_events_ended fuel bytes rest left (i ∷ items) d d' t e h s = absurd (ground arith)

  handle_events_follows :
      (fuel : ℕ) (bytes left : List ℕ) (items : List (Item Invalid)) (d d' : D) (t : ℕ)
      (o : Outcome (Option (Item Invalid) × List ℕ))
      → next fb bytes ≡ o
      → events_loop fb fuel bytes ≡ some (returns (items, left))
      → send_all dev (accepted t items) d ≡ returns (ok d')
      → handle_events fb dev fuel bytes (record { device = d; last_timestamp = t })
        ≡ some (
            returns
              (ok (record { device = d'; last_timestamp = newest t (accepted t items) }, left)))
  handle_events_follows zero bytes left items d d' t o e h s = absurd (unfold events_loop in cc)
  handle_events_follows (suc fuel) bytes left items d d' t panics e h s =
      absurd (let e1 = sym (loop_panics fuel bytes e) ∙ h in ground arith)
  handle_events_follows (suc fuel) bytes left items d d' t (returns (none, rest)) e h s =
      handle_events_ended fuel bytes rest left items d d' t e (sym (loop_end fuel bytes rest e) ∙ h)
        s
  handle_events_follows (suc fuel) bytes left items d d' t (returns (some i, rest)) e h s =
      let (is, p, q) = uncons_loop fuel bytes rest left i items _ e refl h in
      let step = handle_item_Handled i is d d' t (rw p at s) in
      handle_events_step fuel bytes rest i _ step.feed e step.handled
      ∙ handle_events_follows fuel rest left is step.feed.device d' step.feed.last_timestamp
          (next fb rest) refl q step.sends
      ∙ ap (λ n. some (returns (ok (record { device = d'; last_timestamp = n }, left))))
          (step.ends ∙ ap (λ l. newest t (accepted t l)) (sym p))

  -- `handle_events` refines the iterator: when the events of the buffer are `items` and the device
  -- takes the accepted ones, the loop ends with the device that has been sent exactly those, in their
  -- order, with the newest time stamp and with the bytes that the iterator leaves; the accepted ones
  -- have rising time stamps, all above the one that the loop began with.
  pub handle_events_refines :
      (bytes left : List ℕ) (items : List (Item Invalid)) (d d' : D) (t : ℕ)
      → events fb bytes ≡ some (returns (items, left))
      → send_all dev (accepted t items) d ≡ returns (ok d')
      → (handle_events fb dev (suc (length bytes)) bytes (record { device = d; last_timestamp = t })
          ≡ some (
              returns
                (ok (record { device = d'; last_timestamp = newest t (accepted t items) }, left))))
        × Increasing t (accepted t items)
  unfolding events
  handle_events_refines bytes left items d d' t h s = (
    handle_events_follows (suc (length bytes)) bytes left items d d' t _ refl h s,
    accepted-Increasing t items,
  )
