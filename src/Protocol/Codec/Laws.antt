-- ===== src/Protocol/Codec/Laws.antt =====
-- What the decoder does with a first frame, and with everything behind it.
use vita_oxi_pad.Base.{
  ℕ, ◌≤◌, ◌<◌, ◌^◌, ◌≡◌, refl, ◌∙◌, List, ◌++◌, Option, none, some, ok, err, length, take, arith,
  length-append, take-append_le, take-append_eq, drop-append_eq, append_assoc,
}
use vita_oxi_pad.NetProtocol
use vita_oxi_pad.NetProtocol.{FlatBuffers, Packet, pad_content, packet_of}
use vita_oxi_pad.Reports.{MainReport, try_from}
use vita_oxi_pad.Protocol.Events.{Event, pad_data_received}
use vita_oxi_pad.Protocol.Bytes.{to_le_bytes, from_le_bytes-to_le_bytes, length-to_le_bytes}
use vita_oxi_pad.Protocol.Connection.Stream.{Frames}
use vita_oxi_pad.Protocol.Codec.{PadCodec, decode, decode_body, pad_event, invalid_flatbuffer}

abbrev pub fresh : PadCodec
fresh = record { size = none }

abbrev pub sized : ℕ → PadCodec
sized n = record { size = some n }

pad_event_report :
    {Invalid : Type 0} (p : NetProtocol.Pad) (r : MainReport)
    → try_from p ≡ ok r
    → pad_event {Invalid = Invalid} (packet_of (pad_content p)) ≡ ok (some (pad_data_received r))
unfolding pad_event
pad_event_report p r made = rw made refl

module _ {Invalid : Type 0} (fb : FlatBuffers Invalid) where
  decode_prefix :
      (n : ℕ) (bytes : List ℕ)
      → n < 2 ^ 31
      → decode fb fresh (to_le_bytes n ++ bytes) ≡ decode_body fb n bytes
  unfolding decode
  decode_prefix n bytes h = ground (
    arith,
    length-append (to_le_bytes n) bytes,
    length-to_le_bytes n,
    take-append_eq 4 (to_le_bytes n) bytes (length-to_le_bytes n),
    drop-append_eq 4 (to_le_bytes n) bytes (length-to_le_bytes n),
    from_le_bytes-to_le_bytes n,
  )

  decode_body_whole :
      (body rest : List ℕ) (packet : Packet) (event : Option Event)
      → fb.root_as_packet body ≡ ok packet
      → pad_event {Invalid = Invalid} packet ≡ ok event
      → decode_body fb (length body) (body ++ rest) ≡ (ok event, sized (length body), rest)
  unfolding decode_body
  decode_body_whole body rest packet event read made = ground (
    arith,
    length-append body rest,
    take-append_eq (length body) body rest refl,
    drop-append_eq (length body) body rest refl,
  )

  -- A new decoder reads a whole pad frame: it yields the report, leaves the bytes behind the frame,
  -- and keeps the frame's length.
  pub decode_first :
      (p : NetProtocol.Pad) (r : MainReport) (rest : List ℕ) (f : Frames fb (pad_content p))
      → fb.root_as_packet f.body ≡ ok (packet_of (pad_content p))
      → try_from p ≡ ok r
      → decode fb fresh (fb.finished_data (pad_content p) ++ rest)
        ≡ (ok (some (pad_data_received r)), sized (length f.body), rest)
  decode_first p r rest f read made =
      rw (f.framed, append_assoc)
        (decode_prefix (length f.body) (f.body ++ rest) f.short
          ∙ decode_body_whole f.body rest (packet_of (pad_content p)) (some (pad_data_received r))
              read (pad_event_report p r made))

  -- The length is never reset: whatever the decoder does, a known length stays.
  pub decode_keeps_size : (n : ℕ) (src : List ℕ) → (decode fb (sized n) src).1 ≡ sized n
  unfolding decode
  decode_keeps_size n src = ground arith

  -- With a known length, when that many bytes have come and they are no packet, the decoder gives
  -- the error, takes nothing and keeps the length, whatever comes behind them.
  pub decode_stuck :
      (n : ℕ) (src more : List ℕ) (e : Invalid)
      → n ≤ length src
      → fb.root_as_packet (take n src) ≡ err e
      → decode fb (sized n) (src ++ more) ≡ (err (invalid_flatbuffer e), sized n, src ++ more)
  unfolding decode
  decode_stuck n src more e h bad =
      ground (arith, length-append src more, take-append_le n src more h)
