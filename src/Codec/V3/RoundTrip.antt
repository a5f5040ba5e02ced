-- ===== src/Codec/V3/RoundTrip.antt =====
-- `pack_plaintext` of src/shared/knock/codec/v3/v3.c against `unpack_plaintext`.
use siglatch.Prelude.{ℕ, ◌≤◌, ◌≡◌, length, some, arith}
use siglatch.M7mux.Packet.{Bytes}
use siglatch.Codec.Unit.{NormalizedUnit, zero_unit}
use siglatch.Codec.Body.{
  write_body, FitsBody, carried, length-write_body, body_payload_len-write_body,
  read_body-write_body,
}
use siglatch.Codec.Sealed.{form1_id}
use siglatch.Codec.V3.{format, plaintext_size, pack_plaintext, unpack_plaintext}

-- A unit of the version whose fields fit is packed into a buffer with room for it, and the plaintext
-- unpacks to the same fields, with the sender's address and with nothing else set.
pub pack_plaintext-unpack_plaintext :
    (normal : NormalizedUnit) (out_len : ℕ) (ip : Bytes) (client_port : ℕ)
    → FitsBody normal
    → normal.wire_version ≡ format.wire_version
    → normal.wire_form ≡ form1_id
    → plaintext_size (length normal.payload) ≤ out_len
    → (buf : Bytes) × (pack_plaintext normal out_len ≡ some buf)
      × (length buf ≡ plaintext_size (length normal.payload))
      × (unpack_plaintext buf ip client_port ≡ some (carried zero_unit normal ip client_port))
unfolding pack_plaintext unpack_plaintext plaintext_size
pack_plaintext-unpack_plaintext normal out_len ip client_port fits version form room =
    let size = length-write_body normal fits in
    let inside = body_payload_len-write_body normal fits in
    let fields = read_body-write_body normal fits zero_unit ip client_port in
    let small = fits.payload_fits in
    (write_body normal, ground arith, size, rw (size, inside, fields) (ground arith))
