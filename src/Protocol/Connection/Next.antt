-- ===== src/Protocol/Connection/Next.antt =====
-- One call of the iterator of connection.rs: its panic, its waiting, and what it takes.
use vita_oxi_pad.Base.{
  ℕ, ◌+◌, ◌≤◌, ◌<◌, ◌≡◌, ◌≢◌, ok, ◌⊎◌, ◌∙◌, ◌↔◌, ap, true, false, List, ◌++◌, Option, none, some,
  panics, returns, arith, length, take, drop, length-append, length-drop, take-append_le,
  drop-append_le, inl, inr,
}
use native.Mathlib.Decide.{dec_le}
use vita_oxi_pad.NetProtocol.{FlatBuffers}
use vita_oxi_pad.Protocol.Bytes.{
  heartbeat_size, heartbeat_magic, front_is, from_le_bytes, front_is-append_long, front_is_other,
  front_is-length,
}
use vita_oxi_pad.Protocol.Events.{heartbeat_received}
use vita_oxi_pad.Protocol.Connection.{Item, item_of, next}

-- The length that the prefix of a buffer announces.
abbrev pub announced : List ℕ → ℕ
announced bytes = from_le_bytes (take 4 bytes)

module _ {Invalid : Type 0} (fb : FlatBuffers Invalid) where
  -- `next` panics exactly when the buffer holds a packet that still lacks its last byte: the guard
  -- `data[OFFSET_SIZE - 1..].len() < size` lets it pass, and `drain(..OFFSET_SIZE + size)` fails.
  pub next_panics_iff :
      (bytes : List ℕ)
      → (next fb bytes ≡ panics) ↔ (
          (front_is heartbeat_size heartbeat_magic bytes ≡ false)
          × (announced bytes ≢ 0)
          × (length bytes + 1 ≡ 4 + announced bytes))
  unfolding next
  next_panics_iff bytes = (ground (arith, length-drop 3 bytes), ground (arith, length-drop 3 bytes))

  -- An item costs at least one byte.
  pub next_shrinks :
      (bytes rest : List ℕ) (item : Item Invalid)
      → next fb bytes ≡ returns (some item, rest)
      → length rest < length bytes
  unfolding next
  next_shrinks bytes rest item h =
      ground
        (arith, length-drop 3 bytes, length-drop 6 bytes, length-drop (4 + announced bytes) bytes)

  -- While a packet is known to be incomplete by two bytes or more, `next` waits and takes nothing.
  pub next_waits :
      (bytes : List ℕ)
      → front_is heartbeat_size heartbeat_magic bytes ≡ false
      → length bytes + 1 < 4 + announced bytes
      → next fb bytes ≡ returns (none, bytes)
  unfolding next
  next_waits bytes h short = ground (arith, length-drop 3 bytes)

  -- The two ways in which `next` takes bytes.
  pub next_heartbeat :
      (bytes : List ℕ)
      → front_is heartbeat_size heartbeat_magic bytes ≡ true
      → next fb bytes ≡ returns (some (ok heartbeat_received), drop 6 bytes)
  unfolding next
  next_heartbeat bytes h = ground (arith, front_is-length bytes h)

  pub next_packet :
      (bytes : List ℕ)
      → front_is heartbeat_size heartbeat_magic bytes ≡ false
      → announced bytes ≢ 0
      → 4 + announced bytes ≤ length bytes
      → next fb bytes
        ≡ returns (
          item_of (fb.size_prefixed_root_as_packet (take (4 + announced bytes) bytes)),
          drop (4 + announced bytes) bytes,
        )
  unfolding next
  next_packet bytes h z l = ground (arith, length-drop 3 bytes)

  -- Nothing else takes bytes.
  next_takes :
      (bytes rest : List ℕ) (item : Option (Item Invalid))
      → next fb bytes ≡ returns (item, rest)
      → length rest < length bytes
      → (front_is heartbeat_size heartbeat_magic bytes ≡ true)
        ⊎ ((front_is heartbeat_size heartbeat_magic bytes ≡ false)
            × (announced bytes ≢ 0)
            × (4 + announced bytes ≤ length bytes))
  unfolding next
  next_takes bytes rest item h s = ground (arith, length-drop 3 bytes)

  -- A zero length prefix is never taken, whatever follows it.
  pub next_stalls :
      (bytes more : List ℕ)
      → 4 ≤ length bytes
      → announced bytes ≡ 0
      → next fb (bytes ++ more) ≡ returns (none, bytes ++ more)
  unfolding next
  next_stalls bytes more h z =
      let z' : announced (bytes ++ more) ≡ 0 = rw (take-append_le 4 bytes more h) z in
      ground (arith, front_is_other (bytes ++ more) (omega arith))

  append_no_heartbeat :
      (bytes more : List ℕ)
      → front_is heartbeat_size heartbeat_magic bytes ≡ false
      → 4 + announced bytes ≤ length bytes
      → front_is heartbeat_size heartbeat_magic (bytes ++ more) ≡ false
  append_no_heartbeat bytes more e l = elim (dec_le 6 (length bytes)) [
    | yes six ↦ front_is-append_long bytes more six ∙ e
    | no few ↦
        front_is_other (bytes ++ more)
          (rw (take-append_le 4 bytes more (omega arith)) (omega arith))
  ]

  next-append_heartbeat :
      (bytes more rest : List ℕ) (item : Option (Item Invalid))
      → next fb bytes ≡ returns (item, rest)
      → front_is heartbeat_size heartbeat_magic bytes ≡ true
      → next fb (bytes ++ more) ≡ returns (item, rest ++ more)
  next-append_heartbeat bytes more rest item h e =
      let l = front_is-length bytes e in
      let step = next_heartbeat (bytes ++ more) (front_is-append_long bytes more l ∙ e) in
      ground (arith, next_heartbeat bytes e, step, drop-append_le 6 bytes more l)

  next-append_packet :
      (bytes more rest : List ℕ) (item : Option (Item Invalid))
      → next fb bytes ≡ returns (item, rest)
      → front_is heartbeat_size heartbeat_magic bytes ≡ false
      → announced bytes ≢ 0
      → 4 + announced bytes ≤ length bytes
      → next fb (bytes ++ more) ≡ returns (item, rest ++ more)
  next-append_packet bytes more rest item h e z l =
      let n = 4 + announced bytes in
      let a : announced (bytes ++ more) ≡ announced bytes =
        ap from_le_bytes (take-append_le 4 bytes more (omega arith)) in
      ground (
        arith,
        next_packet bytes e z l,
        next_packet (bytes ++ more) (append_no_heartbeat bytes more e l) (rw a z)
            (omega (arith, a, length-append bytes more)),
        a,
        take-append_le n bytes more l,
        drop-append_le n bytes more l,
      )

  -- What `next` yields is decided by the bytes it takes: later bytes only join the rest.
  pub next-append :
      (bytes more rest : List ℕ) (item : Option (Item Invalid))
      → next fb bytes ≡ returns (item, rest)
      → length rest < length bytes
      → next fb (bytes ++ more) ≡ returns (item, rest ++ more)
  next-append bytes more rest item h s = elim (next_takes bytes rest item h s) [
    | inl e ↦ next-append_heartbeat bytes more rest item h e
    | inr (e, z, l) ↦ next-append_packet bytes more rest item h e z l
  ]
