-- ===== src/Protocol/Codec.antt =====
-- client/packages/protocol/src/codec.rs: the tokio decoder of pad packets.
pub mod Laws
use vita_oxi_pad.Base.{
  ℕ, List, Option, none, some, Result, ok, err, ◌>>=◌, ok_or_else, map_err, ltb, if◌then◌else◌,
  length, take, drop,
}
use vita_oxi_pad.NetProtocol.{FlatBuffers, Packet, PacketContent}
use vita_oxi_pad.Reports.{MissingData, try_from}
use vita_oxi_pad.Protocol.Events.{Event, pad_data_received}
use vita_oxi_pad.Protocol.Bytes.{offset_size, from_le_bytes}

pub record PadCodec : Type 0 where
  pub size : Option ℕ

-- The `io::Error`s that `decode` makes, by what they wrap.
pub data DecodeError (Invalid : Type 0) : Type 0 where
  invalid_flatbuffer : Invalid → DecodeError Invalid
  content_not_pad : DecodeError Invalid
  invalid_pad_data : MissingData → DecodeError Invalid

-- The result of `decode`, the decoder and the bytes left in `src`.
abbrev pub Decoded : Type 0 → Type 0
Decoded Invalid = Result (Option Event) (DecodeError Invalid) × PadCodec × List ℕ

module _ {Invalid : Type 0} where
  unfoldable pub pad_event : Packet → Result (Option Event) (DecodeError Invalid)
  pad_event packet = elim packet.content_type [
    | PacketContent.pad ↦ do
      pad ← ok_or_else packet.content_as_pad content_not_pad
      report ← map_err invalid_pad_data (try_from pad)
      ok (some (pad_data_received report))
    | _ ↦ ok none
  ]

module _ {Invalid : Type 0} (fb : FlatBuffers Invalid) where
  -- From `self.size.unwrap()` on.
  unfoldable pub decode_body : ℕ → List ℕ → Decoded Invalid
  unfolding pad_event
  decode_body len src =
      let codec : PadCodec = record { size = some len } in
      if ltb (length src) len
      then (ok none, codec, src)
      else elim (map_err invalid_flatbuffer (fb.root_as_packet (take len src)) >>= pad_event) [
        | err e ↦ (err e, codec, src)
        | ok event ↦ (ok event, codec, drop len src)
      ]

  unfoldable pub decode : PadCodec → List ℕ → Decoded Invalid
  unfolding decode_body
  decode codec src = elim codec.size [
    | none ↦
        if ltb (length src) offset_size
        then (ok none, codec, src)
        else decode_body (from_le_bytes (take offset_size src)) (drop offset_size src)
    | some len ↦ decode_body len src
  ]
