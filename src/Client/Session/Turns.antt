-- ===== src/Client/Session/Turns.antt =====
-- A run of the loop in main.rs: what each turn leaves, and how it ends.
use vita_oxi_pad.Base.{
  ℕ, zero, suc, ◌+◌, ◌-◌, ◌≤◌, ◌≡◌, refl, sym, ap, ◌∙◌, subst, Bool, true, false, List, [], ◌∷◌,
  ◌++◌, append-nil, append_assoc, Option, none, some, Result, ok, err, Outcome, panics, returns,
  arith, leb, Option-cases, Bool-cases, inl, inr, length,
}
use vita_oxi_pad.Client.Session.Feeding.{Fed, handle_events-Fed}
use vita_oxi_pad.NetProtocol.{FlatBuffers}
use vita_oxi_pad.Protocol.Bytes.{heartbeat_magic}
use vita_oxi_pad.Protocol.Connection.{send_heartbeat, retrieve_out_data, receive_data}
use vita_oxi_pad.Client.Session.{
  elapsed, poll, VirtualDevice, Failure, Feed, Round, Session, threshold, as_secs, handle_events,
  filter_udp_nonblocking_error, Received, datagram, would_block, failed, beat, take_in, receive,
  turn, turns,
}

-- A clock that is not behind.
pub elapsed_forward : (since now : ℕ) → since ≤ now → elapsed since now ≡ some (now - since)
unfolding elapsed
elapsed_forward since now h = ground arith

-- `n` heartbeats in a row.
abbrev pub heartbeats : ℕ → List ℕ
heartbeats zero = []
heartbeats (suc n) = heartbeat_magic ++ heartbeats n

pub heartbeats_add : (m n : ℕ) → heartbeats (m + n) ≡ heartbeats m ++ heartbeats n
heartbeats_add zero n = ap heartbeats (omega arith)
heartbeats_add (suc m) n =
    let e : suc m + n ≡ suc (m + n) = omega arith in
    ap heartbeats e ∙ ap (λ l. heartbeat_magic ++ l) (heartbeats_add m n)

module _ {D : Type 0} where
  -- From one session to a later one: whole heartbeats and nothing else have been written, nothing
  -- waits to be sent, and the time stamp is no older.
  pub record Progress (s s' : Session D) : Type 0 where
    pub beats : ℕ
    pub writes : s'.written ≡ s.written ++ heartbeats beats
    pub idle : s'.conn.outgoing_buffer ≡ []
    pub newer : s.feed.last_timestamp ≤ s'.feed.last_timestamp

  Progress-trans : (s s' s'' : Session D) → Progress s s' → Progress s' s'' → Progress s s''
  Progress-trans s s' s'' p q = record {
    beats = p.beats + q.beats;
    writes =
        q.writes
        ∙ ap (λ l. l ++ heartbeats q.beats) p.writes
        ∙ append_assoc s.written (heartbeats p.beats) (heartbeats q.beats)
        ∙ ap (λ l. s.written ++ l) (sym (heartbeats_add p.beats q.beats));
    idle = q.idle;
    newer = omega (arith, p.newer, q.newer);
  }

  unmoved : (s : Session D) → s.conn.outgoing_buffer ≡ [] → Progress s s
  unmoved s h = record {
    beats = 0;
    writes = sym (append-nil s.written);
    idle = h;
    newer = omega arith;
  }

module _ {D E : Type 0} where
  -- A run has ended: by a panic, by a failure, or with progress.
  abbrev pub Ended : Session D → Option (Outcome (Result (Session D) (Failure E))) → Type 0
  Ended s none = ⊥
  Ended s (some panics) = Unit {0}
  Ended s (some (returns (err e))) = Unit {0}
  Ended s (some (returns (ok s'))) = Progress s s'

  Ended-after :
      (s s' : Session D) (o : Option (Outcome (Result (Session D) (Failure E))))
      → Progress s s'
      → Ended s' o
      → Ended s o
  Ended-after s s' none p q = elim q [ ]
  Ended-after s s' (some panics) p q = tt
  Ended-after s s' (some (returns (err e))) p q = tt
  Ended-after s s' (some (returns (ok s''))) p q = Progress-trans s s' s'' p q

module _ {D E : Type 0} where
  -- The turn goes on with progress, or it has panicked or failed.
  abbrev Kept : Session D → Outcome (Result (Session D) (Failure E)) → Type 0
  Kept s panics = Unit {0}
  Kept s (returns (ok s')) = Progress s s'
  Kept s (returns (err e)) = Unit {0}

module _ {D : Type 0} (E : Type 0) where
  beat-Kept :
      (freq : ℕ) (r : Round) (s : Session D)
      → s.conn.outgoing_buffer ≡ []
      → Kept s (beat {E = E} freq r s)
  unfolding beat send_heartbeat retrieve_out_data
  beat-Kept freq r s h = elim (Option-cases (elapsed s.last_time r.woke)) [
    | inl n ↦ rw (n, beat, Kept) tt
    | inr (since, n) ↦ elim (Bool-cases (leb (threshold freq) (as_secs since))) [
      | inr e ↦ rw (n, beat, Kept) (rw e (unmoved s h))
      | inl e ↦ elim (Bool-cases r.writes) [
        | inr w ↦ rw (n, beat, Kept) (rw (e, w) tt)
        | inl w ↦
            rw (n, beat, Kept)
              (rw (e, w)
                (record { beats = 1; writes = rw h refl; idle = refl; newer = omega arith }))
      ]
    ]
  ]

module _ {D E Invalid : Type 0} (fb : FlatBuffers Invalid) (dev : VirtualDevice D E) where
  take_in-Ended :
      (bytes : List ℕ) (s : Session D) (o : Option (Outcome (Result (Feed D × List ℕ) (Failure E))))
      → handle_events fb dev
          (suc (length (s.conn.incoming_buffer ++ bytes)))
          (s.conn.incoming_buffer ++ bytes)
          s.feed
        ≡ o
      → Fed s.feed o
      → s.conn.outgoing_buffer ≡ []
      → Ended s (take_in fb dev bytes s)
  unfolding take_in receive_data
  take_in-Ended bytes s none e q h = elim q [ ]
  take_in-Ended bytes s (some panics) e q h = rw (e, take_in, Ended) tt
  take_in-Ended bytes s (some (returns (err x))) e q h = rw (e, take_in, Ended) tt
  take_in-Ended bytes s (some (returns (ok (f, rest)))) e q h =
      rw (e, take_in, Ended)
        (record { beats = 0; writes = sym (append-nil s.written); idle = h; newer = q })

  receive-Ended :
      (asked woke stamped : ℕ) (polled writes readable : Bool) (x : Received) (s : Session D)
      → s.conn.outgoing_buffer ≡ []
      → Ended s (
          receive fb dev
            (record {
              asked = asked;
              woke = woke;
              stamped = stamped;
              polled = polled;
              writes = writes;
              readable = readable;
              received = x;
            })
            s)
  unfolding receive filter_udp_nonblocking_error
  receive-Ended asked woke stamped polled writes false x s h = unmoved s h
  receive-Ended asked woke stamped polled writes true would_block s h = unmoved s h
  receive-Ended asked woke stamped polled writes true failed s h = tt
  receive-Ended asked woke stamped polled writes true (datagram []) s h = unmoved s h
  receive-Ended asked woke stamped polled writes true (datagram (b ∷ bytes)) s h =
      take_in-Ended (b ∷ bytes) s _ refl
        (handle_events-Fed fb dev (suc (length (s.conn.incoming_buffer ++ b ∷ bytes)))
          (s.conn.incoming_buffer ++ b ∷ bytes) s.feed (omega arith))
        h

  -- A turn whose poll works goes on from its heartbeat.
  pub turn_polled :
      (freq timeout : ℕ) (r : Round) (s : Session D) (o : Outcome (Result (Session D) (Failure E)))
      → poll {E = E} freq r s ≡ returns (ok timeout)
      → beat freq r s ≡ o
      → turn fb dev freq r s ≡ elim o [
        | panics ↦ some panics
        | returns (err e) ↦ some (returns (err e))
        | returns (ok s') ↦ receive fb dev r s'
      ]
  unfolding turn
  turn_polled freq timeout r s o p e = rw (p, turn) (rw e refl)

  beaten-Ended :
      (r : Round) (s : Session D) (o : Outcome (Result (Session D) (Failure E)))
      → Kept s o
      → Ended s (elim o [
        | panics ↦ some panics
        | returns (err e) ↦ some (returns (err e))
        | returns (ok s') ↦ receive fb dev r s'
      ])
  beaten-Ended r s panics p = tt
  beaten-Ended r s (returns (err x)) p = tt
  beaten-Ended r s (returns (ok s')) p =
      Ended-after s s' _ p
        (receive-Ended r.asked r.woke r.stamped r.polled r.writes r.readable r.received s' p.idle)

  turn-Ended :
      (freq : ℕ) (r : Round) (s : Session D) (o : Outcome (Result ℕ (Failure E)))
      → poll freq r s ≡ o
      → Kept s (beat {E = E} freq r s)
      → Ended s (turn fb dev freq r s)
  unfolding turn
  turn-Ended freq r s panics e p = rw (e, turn) tt
  turn-Ended freq r s (returns (err x)) e p = rw (e, turn) tt
  turn-Ended freq r s (returns (ok timeout)) e p =
      subst (Ended s) (sym (turn_polled freq timeout r s _ e refl)) (beaten-Ended r s _ p)

  turns_step :
      (freq : ℕ) (r : Round) (rs : List Round) (s : Session D)
      (o : Option (Outcome (Result (Session D) (Failure E))))
      → turn fb dev freq r s ≡ o
      → Ended s o
      → ((s' : Session D) → s'.conn.outgoing_buffer ≡ [] → Ended s' (turns fb dev freq rs s'))
      → Ended s (turns fb dev freq (r ∷ rs) s)
  unfolding turns
  turns_step freq r rs s none e q ih = elim q [ ]
  turns_step freq r rs s (some panics) e q ih = rw (e, turns) tt
  turns_step freq r rs s (some (returns (err x))) e q ih = rw (e, turns) tt
  turns_step freq r rs s (some (returns (ok s'))) e q ih =
      rw (e, turns) (Ended-after s s' _ q (ih s' q.idle))

  -- A run of any turns comes to its end, and when nothing waits to be sent at its beginning and it
  -- neither panics nor fails, then it has written whole heartbeats and nothing else, nothing waits to
  -- be sent, and the last time stamp is no older than at the beginning.
  pub turns-Ended :
      (freq : ℕ) (rs : List Round) (s : Session D)
      → s.conn.outgoing_buffer ≡ []
      → Ended s (turns fb dev freq rs s)
  unfolding turns
  turns-Ended freq [] s h = unmoved s h
  turns-Ended freq (r ∷ rs) s h =
      turns_step freq r rs s _ refl (turn-Ended freq r s _ refl (beat-Kept E freq r s h))
        (λ s' i. turns-Ended freq rs s' i)
