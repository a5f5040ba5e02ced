-- ===== src/Codec/V4.antt =====
-- The plaintext and the fragments of src/shared/knock/codec/v4/v4.c.
pub mod RoundTrip
pub mod Transfer
pub mod Fragments
use siglatch.Prelude.{
  ℕ, ◌+◌, ◌*◌, ◌/◌, ◌%◌, ◌^◌, Bool, true, false, Option, none, some, ◌||◌, ◌&&◌, not, [], ◌∷◌, ◌++◌,
  if◌then◌else◌, ltb, leb, ◌==◌, length, take, drop,
}
use siglatch.M7mux.Packet.{Bytes, Control}
use siglatch.Codec.Wire.{byte, read_u32, read_u64, write_u32, write_u64}
use siglatch.Codec.Unit.{NormalizedUnit, zero_unit}
use siglatch.Codec.Body.{write_body, read_body, body_payload_len}
use siglatch.Codec.Sealed.{Format, form1_id, payload_max}

-- `SIGLATCH_V4_INNER_ENVELOPE_WIRE_SIZE`.
abbrev pub inner_size : ℕ
inner_size = 30

abbrev pub format : Format
format = record { wire_version = 0x00040000; body_fixed_size = 77 }

unfoldable pub plaintext_size : ℕ → ℕ
plaintext_size payload_len = format.body_fixed_size + payload_len

-- The flags and the stream type are 0.
unfoldable pub pack_inner_envelope : NormalizedUnit → Bytes
pack_inner_envelope normal =
    write_u64 normal.session_id
    ++ (write_u64 normal.message_id
        ++ (write_u32 normal.stream_id
            ++ (write_u32 normal.fragment_index
                ++ (write_u32 normal.fragment_count ++ (0 ∷ 0 ∷ [])))))

-- `out_len` is the room in the buffer; the bytes that are written carry their number.
unfoldable pub pack_plaintext : NormalizedUnit → ℕ → Option Bytes
pack_plaintext normal out_len =
    if ltb payload_max (length normal.payload)
    then none
    else if not (normal.wire_version == format.wire_version) || not (normal.wire_form == form1_id)
    then none
    else if ltb out_len (plaintext_size (length normal.payload))
    then none
    else some (pack_inner_envelope normal ++ write_body normal)

-- Its caller has tested that the buffer is longer than the envelope.
unfoldable pub unpack_inner_envelope : Bytes → NormalizedUnit → NormalizedUnit
unpack_inner_envelope buf out = record out {
  session_id = read_u64 buf;
  message_id = read_u64 (drop 8 buf);
  stream_id = read_u32 (drop 16 buf);
  fragment_index = read_u32 (drop 20 buf);
  fragment_count = read_u32 (drop 24 buf);
}

-- The control is written before the body is tested.
unfoldable pub unpack_plaintext : Bytes → Bytes → ℕ → Control → Control × Option NormalizedUnit
unpack_plaintext buf ip client_port control =
    if ltb (length buf) format.body_fixed_size
    then (control, none)
    else let control' = record control { stream_type = byte buf 29 } in
      let body = drop inner_size buf in
      if ltb payload_max (body_payload_len body)
      then (control', none)
      else if not (length buf == plaintext_size (body_payload_len body))
      then (control', none)
      else (control', some (read_body (unpack_inner_envelope buf zero_unit) body ip client_port))

-- The fragments that a payload needs.
unfoldable pub required_fragments : ℕ → ℕ
required_fragments payload_len =
    let required = payload_len / payload_max + (if payload_len % payload_max == 0 then 0 else 1) in
    if required == 0 then 1 else required

unfoldable pub count_fragments : NormalizedUnit → ℕ → ℕ
count_fragments normal force_fragment_count =
    let required = required_fragments (length normal.payload) in
    if ltb 0 force_fragment_count
    then (if ltb force_fragment_count required then 0 else force_fragment_count)
    else required

abbrev pub min_of : ℕ → ℕ → ℕ
min_of i remainder = if ltb i remainder then i else remainder

-- Where the fragment `i` of `count` starts in a payload, and its length.
unfoldable pub fragment_offset : ℕ → ℕ → ℕ → ℕ
fragment_offset payload_len i count = i * (payload_len / count) + min_of i (payload_len % count)

unfoldable pub fragment_payload_len : ℕ → ℕ → ℕ → ℕ
fragment_payload_len payload_len i count =
    payload_len / count + (if ltb i (payload_len % count) then 1 else 0)

-- The unit of the fragment `i` of `count`.
unfoldable pub fragment_of : NormalizedUnit → ℕ → ℕ → NormalizedUnit
fragment_of normal i count =
    let payload_len = length normal.payload in
    record normal {
      fragment_index = i % 2 ^ 32;
      fragment_count = count % 2 ^ 32;
      complete = leb count (i + 1);
      payload =
          take (fragment_payload_len payload_len i count)
            (drop (fragment_offset payload_len i count) normal.payload);
    }

-- What `encode_fragment` gives to `encode`.
unfoldable pub choose_fragment : NormalizedUnit → ℕ → ℕ → Option NormalizedUnit
choose_fragment normal fragment_index force_fragment_count =
    if not (normal.wire_version == format.wire_version) || not (normal.wire_form == form1_id)
    then none
    else let fragment_count = count_fragments normal force_fragment_count in
      if fragment_count == 0 || leb fragment_count fragment_index
      then none
      else some (fragment_of normal fragment_index fragment_count)
