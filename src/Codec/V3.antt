-- ===== src/Codec/V3.antt =====
-- The plaintext of src/shared/knock/codec/v3/v3.c.
pub mod RoundTrip
pub mod Transfer
use siglatch.Prelude.{
  ℕ, ◌+◌, Bool, Option, none, some, ◌||◌, ◌&&◌, leb, not, if◌then◌else◌, ltb, ◌==◌, length,
}
use siglatch.M7mux.Packet.{Bytes}
use siglatch.Codec.Unit.{NormalizedUnit, zero_unit}
use siglatch.Codec.Body.{write_body, read_body, body_payload_len}
use siglatch.M7mux.Ingress.{Datagram, Identity}
use siglatch.Codec.Sealed
use siglatch.Codec.Sealed.{Format, form1_id, payload_max, WirePacket, Result, Error}

abbrev pub format : Format
format = record { wire_version = 0x00030000; body_fixed_size = 47 }

unfoldable pub plaintext_size : ℕ → ℕ
plaintext_size payload_len = format.body_fixed_size + payload_len

-- `out_len` is the room in the buffer; the bytes that are written carry their number.
unfoldable pub pack_plaintext : NormalizedUnit → ℕ → Option Bytes
pack_plaintext normal out_len =
    if ltb payload_max (length normal.payload)
    then none
    else if not (normal.wire_version == format.wire_version) || not (normal.wire_form == form1_id)
    then none
    else if ltb out_len (plaintext_size (length normal.payload))
    then none
    else some (write_body normal)

unfoldable pub unpack_plaintext : Bytes → Bytes → ℕ → Option NormalizedUnit
unpack_plaintext buf ip client_port =
    if ltb (length buf) format.body_fixed_size
    then none
    else if ltb payload_max (body_payload_len buf)
    then none
    else if not (length buf == plaintext_size (body_payload_len buf))
    then none
    else some (read_body zero_unit buf ip client_port)

-- A message is one fragment, which no caller may split.
unfoldable pub count_fragments : NormalizedUnit → ℕ → ℕ
count_fragments normal force_fragment_count =
    if ltb 0 force_fragment_count && not (force_fragment_count == 1)
    then 0
    else if leb (length normal.payload) payload_max
    then 1
    else 0

-- The sealed datagram of the version.
abbrev pub pack : WirePacket → ℕ → Result Bytes
pack = Sealed.pack format

abbrev pub unpack_wire : Bytes → Result WirePacket
unpack_wire = Sealed.unpack_wire format

abbrev pub validate_wire : WirePacket → Option Error
validate_wire = Sealed.validate_wire format

abbrev pub deserialize_wire : Bytes → Result WirePacket
deserialize_wire = Sealed.deserialize_wire format

abbrev pub detect : Datagram → Option Identity
detect = Sealed.detect format
