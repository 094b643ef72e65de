-- ===== src/Protocol/Connection/Stream.antt =====
-- The loop over `ConnectionEvents`: its end, and what it yields on whole messages.
use vita_oxi_pad.Base.{
  ℕ, zero, suc, ◌+◌, ◌<◌, ◌^◌, ◌≡◌, ◌≢◌, refl, ◌∙◌, ap, List, [], ◌∷◌, ◌++◌, map, Option, none,
  some, ok, Outcome, panics, returns, arith, length, All, length-append, take-append_eq,
  drop-append_eq, append_assoc,
}
use vita_oxi_pad.NetProtocol.{FlatBuffers, Content, packet_of}
use vita_oxi_pad.Protocol.Events.{Event, heartbeat_received}
use vita_oxi_pad.Protocol.Bytes.{
  heartbeat_magic, front_is_heartbeat, front_is_other, to_le_bytes, from_le_bytes-to_le_bytes,
  length-to_le_bytes,
}
use vita_oxi_pad.Protocol.Connection.{Item, event_of, item_of, next, events_loop, events}
use vita_oxi_pad.Protocol.Connection.Next.{announced, next_shrinks, next_heartbeat, next_packet}

-- What a peer puts on the wire.
pub data Message : Type 0 where
  heartbeat : Message
  packet : Content → Message

module _ {Invalid : Type 0} (fb : FlatBuffers Invalid) where
  -- What the documentation of flatbuffers says of a packet built with this content: a size prefix
  -- of four bytes, lowest first, stands before a body below 2 GiB, and reading gives back what was
  -- put in.
  pub record Frames (c : Content) : Type 0 where
    pub body : List ℕ
    pub framed : fb.finished_data c ≡ to_le_bytes (length body) ++ body
    pub filled : 0 < length body
    pub short : length body < 2 ^ 31
    pub read_back : fb.size_prefixed_root_as_packet (fb.finished_data c) ≡ ok (packet_of c)

  abbrev pub Arrives : Message → Type 0
  Arrives heartbeat = Unit {0}
  Arrives (packet c) = Frames c

  abbrev pub encode : Message → List ℕ
  encode heartbeat = heartbeat_magic
  encode (packet c) = fb.finished_data c

  abbrev pub stream : List Message → List ℕ
  stream [] = []
  stream (m ∷ ms) = encode m ++ stream ms

  -- The item that a message gives, if it gives one.
  abbrev pub item : Message → Option (Item Invalid)
  item heartbeat = some (ok heartbeat_received)
  item (packet c) = event_of (packet_of c)

  length-frame : (c : Content) (a : Frames c) → length (fb.finished_data c) ≡ 4 + length a.body
  length-frame c a =
      rw (a.framed, length-append) (omega (arith, length-to_le_bytes (length a.body)))

  announced-frame :
      (c : Content) (rest : List ℕ) (a : Frames c)
      → announced (fb.finished_data c ++ rest) ≡ length a.body
  announced-frame c rest a =
      let n = length a.body in
      rw (a.framed, append_assoc, take-append_eq 4 (to_le_bytes n) _ (length-to_le_bytes n))
        (from_le_bytes-to_le_bytes n (omega arith))

  next-frame :
      (c : Content) (rest : List ℕ)
      → Frames c
      → next fb (fb.finished_data c ++ rest) ≡ returns (event_of (packet_of c), rest)
  unfolding item_of
  next-frame c rest a =
      let f = fb.finished_data c in
      let n = 4 + length a.body in
      let e = announced-frame c rest a in
      let taken : length (f ++ rest) ≡ n + length rest =
        rw length-append (omega (arith, length-frame c a)) in
      ground (
        arith,
        e,
        next_packet fb (f ++ rest) (front_is_other (f ++ rest) (omega (arith, e, a.short)))
            (omega (arith, e, a.filled)) (omega (arith, e, taken)),
        take-append_eq n f rest (length-frame c a),
        drop-append_eq n f rest (length-frame c a),
        a.read_back,
      )

  -- On a buffer that begins with a whole message, `next` yields its item and takes its bytes.
  pub next-encode :
      (m : Message) (rest : List ℕ)
      → Arrives m
      → next fb (encode m ++ rest) ≡ returns (item m, rest)
  next-encode heartbeat rest a =
      next_heartbeat fb (heartbeat_magic ++ rest) (front_is_heartbeat rest)
  next-encode (packet c) rest a = next-frame c rest a

  events_loop-ne-none_step :
      (fuel : ℕ) (bytes : List ℕ) (r : Outcome (Option (Item Invalid) × List ℕ))
      → next fb bytes ≡ r
      → ((rest : List ℕ) → length rest < length bytes → events_loop fb fuel rest ≢ none)
      → events_loop fb (suc fuel) bytes ≢ none
  unfolding events_loop
  events_loop-ne-none_step fuel bytes panics e ih = rw (e, events_loop) (λ p. cc)
  events_loop-ne-none_step fuel bytes (returns (none, rest)) e ih = rw (e, events_loop) (λ p. cc)
  events_loop-ne-none_step fuel bytes (returns (some i, rest)) e ih =
      let later = ih rest (next_shrinks fb bytes rest i e) in ground arith

  pub events_loop-ne-none :
      (fuel : ℕ) (bytes : List ℕ) → length bytes < fuel → events_loop fb fuel bytes ≢ none
  events_loop-ne-none zero bytes h = absurd (omega arith)
  events_loop-ne-none (suc fuel) bytes h =
      events_loop-ne-none_step fuel bytes (next fb bytes) refl
        (λ rest l. events_loop-ne-none fuel rest (omega arith))

  -- The loop ends on every buffer.
  pub events-ne-none : (bytes : List ℕ) → events fb bytes ≢ none
  unfolding events
  events-ne-none bytes = events_loop-ne-none (suc (length bytes)) bytes (omega arith)

  -- A message that gives an event, and the event.
  abbrev pub Delivers : Message × Event → Type 0
  Delivers (m, e) = Arrives m × (item m ≡ some (ok e))

  abbrev pub items_of : List (Message × Event) → List (Item Invalid)
  items_of = map (λ p. ok p.1)

  abbrev pub messages : List (Message × Event) → List Message
  messages = map (λ p. p.0)

  events_loop_item :
      (fuel : ℕ) (bytes rest : List ℕ) (i : Item Invalid) (is : List (Item Invalid)) (left : List ℕ)
      → next fb bytes ≡ returns (some i, rest)
      → events_loop fb fuel rest ≡ some (returns (is, left))
      → events_loop fb (suc fuel) bytes ≡ some (returns (i ∷ is, left))
  unfolding events_loop
  events_loop_item fuel bytes rest i is left e f = ground arith

  events_loop_end :
      (fuel : ℕ) (bytes left : List ℕ)
      → next fb bytes ≡ returns (none, left)
      → events_loop fb (suc fuel) bytes ≡ some (returns ([], left))
  unfolding events_loop
  events_loop_end fuel bytes left e = ground arith

  events_loop-stream :
      (ms : List (Message × Event)) (tail left : List ℕ) (fuel : ℕ)
      → All Delivers ms
      → next fb tail ≡ returns (none, left)
      → length (stream (messages ms) ++ tail) < fuel
      → events_loop fb fuel (stream (messages ms) ++ tail) ≡ some (returns (items_of ms, left))
  events_loop-stream ms tail left zero a e h = absurd (omega arith)
  events_loop-stream [] tail left (suc fuel) a e h = events_loop_end fuel tail left e
  events_loop-stream ((m, ev) ∷ ms) tail left (suc fuel) a e h =
      let rest = stream (messages ms) ++ tail in
      let assoc = append_assoc (encode m) (stream (messages ms)) tail in
      let first : next fb (encode m ++ rest) ≡ returns (some (ok ev), rest) =
        next-encode m rest a.0.0 ∙ ap (λ i. returns (i, rest)) a.0.1 in
      rw assoc (
        events_loop_item fuel _ rest (ok ev) (items_of ms) left first (
          events_loop-stream ms tail left fuel a.1 e
            (omega (arith, next_shrinks fb _ rest (ok ev) first, ap length assoc))))

  -- A buffer of whole messages that each give an event, and then a tail on which `next` gives
  -- nothing: the loop yields the messages' events in their order, none lost and none added, and
  -- leaves what `next` leaves of the tail.
  pub events-stream :
      (ms : List (Message × Event)) (tail left : List ℕ)
      → All Delivers ms
      → next fb tail ≡ returns (none, left)
      → events fb (stream (messages ms) ++ tail) ≡ some (returns (items_of ms, left))
  unfolding events
  events-stream ms tail left a e = events_loop-stream ms tail left _ a e (omega arith)

  -- A message that gives no event ends the loop: the messages behind it stay in the buffer unread,
  -- though they are whole.
  pub events_stop :
      (ms : List (Message × Event)) (m : Message) (behind : List ℕ)
      → All Delivers ms
      → Arrives m
      → item m ≡ none
      → events fb (stream (messages ms) ++ (encode m ++ behind))
        ≡ some (returns (items_of ms, behind))
  events_stop ms m behind a framed silent =
      events-stream ms (encode m ++ behind) behind a
        (next-encode m behind framed ∙ ap (λ i. returns (i, behind)) silent)
