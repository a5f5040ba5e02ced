-- ===== src/Codec/V4/RoundTrip.antt =====
-- `pack_plaintext` of src/shared/knock/codec/v4/v4.c against `unpack_plaintext`.
use siglatch.Prelude.{ℕ, ◌+◌, ◌≤◌, ◌<◌, ◌≡◌, refl, ◌++◌, length, drop, some, arith}
use siglatch.M7mux.Packet.{Bytes, Control}
use siglatch.Codec.Wire.{
  byte, read_u32, read_u64, write_u32, write_u64, read_u32-write_u32, read_u64-write_u64,
}
use siglatch.Codec.Unit.{NormalizedUnit, zero_unit}
use siglatch.Codec.Body.{
  write_body, FitsBody, carried, length-write_body, body_payload_len-write_body,
  read_body-write_body,
}
use siglatch.Codec.Sealed.{form1_id}
use siglatch.Codec.V4.{
  format, inner_size, plaintext_size, pack_inner_envelope, unpack_inner_envelope, pack_plaintext,
  unpack_plaintext,
}

-- The numbers of the envelope fit their fields.
pub record FitsEnvelope (normal : NormalizedUnit) : Type 0 where
  pub session_id_fits : normal.session_id < 18446744073709551616
  pub message_id_fits : normal.message_id < 18446744073709551616
  pub stream_id_fits : normal.stream_id < 4294967296
  pub fragment_index_fits : normal.fragment_index < 4294967296
  pub fragment_count_fits : normal.fragment_count < 4294967296

-- An empty unit with the envelope's fields of another.
unfoldable pub with_envelope : NormalizedUnit → NormalizedUnit
with_envelope normal = record zero_unit {
  session_id = normal.session_id;
  message_id = normal.message_id;
  stream_id = normal.stream_id;
  fragment_index = normal.fragment_index;
  fragment_count = normal.fragment_count;
}

module _ (normal : NormalizedUnit) (body : Bytes) (fits : FitsEnvelope normal) where
  packed : Bytes
  packed = pack_inner_envelope normal ++ body

  at_session_id : read_u64 packed ≡ normal.session_id
  unfolding packed pack_inner_envelope write_u64
  at_session_id = read_u64-write_u64 normal.session_id _ fits.session_id_fits

  at_message_id : read_u64 (drop 8 packed) ≡ normal.message_id
  unfolding packed pack_inner_envelope write_u64
  at_message_id = read_u64-write_u64 normal.message_id _ fits.message_id_fits

  at_stream_id : read_u32 (drop 16 packed) ≡ normal.stream_id
  unfolding packed pack_inner_envelope write_u64 write_u32
  at_stream_id = read_u32-write_u32 normal.stream_id _ fits.stream_id_fits

  at_fragment_index : read_u32 (drop 20 packed) ≡ normal.fragment_index
  unfolding packed pack_inner_envelope write_u64 write_u32
  at_fragment_index = read_u32-write_u32 normal.fragment_index _ fits.fragment_index_fits

  at_fragment_count : read_u32 (drop 24 packed) ≡ normal.fragment_count
  unfolding packed pack_inner_envelope write_u64 write_u32
  at_fragment_count = read_u32-write_u32 normal.fragment_count _ fits.fragment_count_fits

  at_stream_type : byte packed 29 ≡ 0
  unfolding packed pack_inner_envelope write_u64 write_u32
  at_stream_type = refl

  at_body : drop inner_size packed ≡ body
  unfolding packed pack_inner_envelope write_u64 write_u32
  at_body = refl

  length-packed : length packed ≡ inner_size + length body
  unfolding packed pack_inner_envelope write_u64 write_u32
  length-packed = omega arith

  unpack_inner_envelope-packed : unpack_inner_envelope packed zero_unit ≡ with_envelope normal
  unfolding unpack_inner_envelope with_envelope
  unpack_inner_envelope-packed =
      rw (at_session_id, at_message_id, at_stream_id, at_fragment_index, at_fragment_count) refl

-- A unit of the version whose fields fit is packed into a buffer with room for it, and the plaintext
-- unpacks to the same envelope and body, with the sender's address, with nothing else set and with
-- stream type 0 in the control.
pub pack_plaintext-unpack_plaintext_v4 :
    (normal : NormalizedUnit) (out_len : ℕ) (ip : Bytes) (client_port : ℕ) (control : Control)
    → FitsEnvelope normal
    → FitsBody normal
    → normal.wire_version ≡ format.wire_version
    → normal.wire_form ≡ form1_id
    → plaintext_size (length normal.payload) ≤ out_len
    → (buf : Bytes) × (pack_plaintext normal out_len ≡ some buf)
      × (length buf ≡ plaintext_size (length normal.payload))
      × (unpack_plaintext buf ip client_port control ≡ (
        record control { stream_type = 0 },
        some (carried (with_envelope normal) normal ip client_port),
      ))
unfolding pack_plaintext unpack_plaintext plaintext_size packed
pack_plaintext-unpack_plaintext_v4 normal out_len ip client_port control envelope fits version form
      room =
    let body = write_body normal in
    let size = length-packed normal body envelope in
    let size' = length-write_body normal fits in
    let inside = body_payload_len-write_body normal fits in
    let fields = read_body-write_body normal fits (with_envelope normal) ip client_port in
    let small = fits.payload_fits in
    (
      packed normal body envelope,
      ground arith,
      omega (arith, size, size'),
      rw
          (
            size,
            size',
            at_body normal body envelope,
            inside,
            at_stream_type normal body envelope,
            unpack_inner_envelope-packed normal body envelope,
            fields,
          )
          (ground arith),
    )
