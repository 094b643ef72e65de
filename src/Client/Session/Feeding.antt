-- ===== src/Client/Session/Feeding.antt =====
-- The loop over the events in main.rs: its end and its time stamp.
use vita_oxi_pad.Base.{
  ℕ, zero, suc, ◌≤◌, ◌<◌, ◌≡◌, refl, List, Option, none, some, Result, ok, err, Outcome, panics,
  returns, arith, length,
}
use vita_oxi_pad.NetProtocol.{FlatBuffers}
use vita_oxi_pad.Protocol.Events.{
  handshake_response_received, heartbeat_received, pad_data_received,
}
use vita_oxi_pad.Protocol.Connection.{Item, next}
use vita_oxi_pad.Protocol.Connection.Next.{next_shrinks}
use vita_oxi_pad.Client.Session.{VirtualDevice, Failure, Feed, handle_item, handle_events}

module _ {D E : Type 0} where
  -- The loop over the events has ended, with no older time stamp.
  abbrev pub Fed : Feed D → Option (Outcome (Result (Feed D × List ℕ) (Failure E))) → Type 0
  Fed f none = ⊥
  Fed f (some panics) = Unit {0}
  Fed f (some (returns (err e))) = Unit {0}
  Fed f (some (returns (ok (f', rest)))) = f.last_timestamp ≤ f'.last_timestamp

  Fed-from :
      (f f' : Feed D) (o : Option (Outcome (Result (Feed D × List ℕ) (Failure E))))
      → f.last_timestamp ≤ f'.last_timestamp
      → Fed f' o
      → Fed f o
  Fed-from f f' none h q = elim q [ ]
  Fed-from f f' (some panics) h q = tt
  Fed-from f f' (some (returns (err e))) h q = tt
  Fed-from f f' (some (returns (ok (f'', rest)))) h q = omega arith

module _ {D E Invalid : Type 0} (fb : FlatBuffers Invalid) (dev : VirtualDevice D E) where
  handle_item_newer :
      (i : Item Invalid) (f f' : Feed D)
      → handle_item dev i f ≡ returns (ok f')
      → f.last_timestamp ≤ f'.last_timestamp
  unfolding handle_item
  handle_item_newer (ok (handshake_response_received h)) f f' e = ground arith
  handle_item_newer (ok heartbeat_received) f f' e = ground arith
  handle_item_newer (err x) f f' e = ground arith
  handle_item_newer (ok (pad_data_received r)) f f' e = ground arith

  Fed-item :
      (fuel : ℕ) (bytes rest : List ℕ) (i : Item Invalid) (f : Feed D)
      (o : Outcome (Result (Feed D) (Failure E)))
      → next fb bytes ≡ returns (some i, rest)
      → handle_item dev i f ≡ o
      → ((f' : Feed D) → Fed f' (handle_events fb dev fuel rest f'))
      → Fed f (handle_events fb dev (suc fuel) bytes f)
  unfolding handle_events
  Fed-item fuel bytes rest i f panics e h ih = rw (e, handle_events) (rw h tt)
  Fed-item fuel bytes rest i f (returns (err x)) e h ih = rw (e, handle_events) (rw h tt)
  Fed-item fuel bytes rest i f (returns (ok f')) e h ih =
      rw (e, handle_events) (rw h (Fed-from f f' _ (handle_item_newer i f f' h) (ih f')))

  Fed-step :
      (fuel : ℕ) (bytes : List ℕ) (f : Feed D) (o : Outcome (Option (Item Invalid) × List ℕ))
      → next fb bytes ≡ o
      → ((rest : List ℕ) (f' : Feed D)
          → length rest < length bytes
          → Fed f' (handle_events fb dev fuel rest f'))
      → Fed f (handle_events fb dev (suc fuel) bytes f)
  unfolding handle_events
  Fed-step fuel bytes f panics e ih = rw (e, handle_events) tt
  Fed-step fuel bytes f (returns (none, rest)) e ih = rw (e, handle_events) (omega arith)
  Fed-step fuel bytes f (returns (some i, rest)) e ih =
      Fed-item fuel bytes rest i f (handle_item dev i f) e refl
        (λ f'. ih rest f' (next_shrinks fb bytes rest i e))

  pub handle_events-Fed :
      (fuel : ℕ) (bytes : List ℕ) (f : Feed D)
      → length bytes < fuel
      → Fed f (handle_events fb dev fuel bytes f)
  handle_events-Fed zero bytes f h = absurd (omega arith)
  handle_events-Fed (suc fuel) bytes f h =
      Fed-step fuel bytes f (next fb bytes) refl
        (λ rest f' l. handle_events-Fed fuel rest f' (omega arith))
