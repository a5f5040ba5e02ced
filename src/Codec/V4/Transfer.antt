-- ===== src/Codec/V4/Transfer.antt =====
-- `decode`, `encode` and the adapter of src/shared/knock/codec/v4/v4.c.
pub mod RoundTrip
pub mod Delivery
use siglatch.Prelude.{
  ℕ, ◌+◌, Bool, true, false, Option, none, some, ◌||◌, not, List, [], ◌∷◌, if◌then◌else◌, ltb, ◌==◌,
  length,
}
use siglatch.M7mux.Packet.{Bytes, Control, RecvPacket, SendPacket, EgressData}
use siglatch.M7mux.Ingress.{Datagram}
use siglatch.M7mux.Outbox.{Adapter}
use siglatch.Codec.Unit.{NormalizedUnit, is_complete, copy_send_packet}
use siglatch.Codec.Sealed.{
  WirePacket, Result, ok, err, deserialize_wire, form1_id, payload_max, body_max,
}
use siglatch.Codec.Exchange.{
  OpensslSession, Library, Random, ◌>>=◌, decrypt_packet, sign_body, seal, Decoded, failed,
  malformed, decoded, deliver, send_encoded,
}
use siglatch.Codec.V4.{format, pack_plaintext, unpack_plaintext, count_fragments, choose_fragment}

unfoldable pub decrypt_and_unpack_packet :
    Library
    → Option OpensslSession
    → WirePacket
    → Bytes
    → ℕ
    → Control
    → Control × Option NormalizedUnit
decrypt_and_unpack_packet lib session pkt ip client_port control =
    elim (decrypt_packet lib session pkt) [
      | none ↦ (control, none)
      | some plaintext ↦ unpack_plaintext plaintext ip client_port control
    ]

-- What `decode` sets in a unit that was unpacked.
unfoldable pub received : NormalizedUnit → NormalizedUnit
received out = record out {
  complete = is_complete out.fragment_index out.fragment_count;
  wire_version = format.wire_version;
  wire_form = form1_id;
  encrypted = true;
  wire_decode = true;
  wire_auth = false;
}

abbrev received? : Option NormalizedUnit → Decoded
received? none = failed
received? (some out) = decoded (received out)

unfoldable pub decode : Library → Option OpensslSession → Datagram → Control → Control × Decoded
decode lib session ingress control =
    let control = record control { session_by_client = 1 } in
    elim (deserialize_wire format ingress.buffer) [
      | err e ↦ (control, malformed)
      | ok pkt ↦
          let (control', out) =
            decrypt_and_unpack_packet lib session pkt ingress.ip ingress.client_port control in
          (control', received? out)
    ]

-- The buffer and its length: `seal` says how.
unfoldable pub encode :
    Library → Option OpensslSession → Random → NormalizedUnit → Bytes → Option (Bytes × ℕ)
encode lib session random normal out_buf =
    if not (normal.wire_version == format.wire_version) || not (normal.wire_form == form1_id)
    then none
    else if ltb payload_max (length normal.payload)
    then none
    else do
      body ← sign_body lib session normal
      plaintext ← pack_plaintext body (body_max format)
      seal format lib session random plaintext out_buf

unfoldable pub encode_fragment :
    Library → Option OpensslSession → Random → NormalizedUnit → ℕ → ℕ → Bytes → Option (Bytes × ℕ)
encode_fragment lib session random normal fragment_index force_fragment_count out_buf =
    choose_fragment normal fragment_index force_fragment_count
    >>= (λ fragment. encode lib session random fragment out_buf)

unfoldable pub adapter_decode :
    Library → Option OpensslSession → Datagram → Control → Control × Option RecvPacket
adapter_decode lib session ingress control =
    let (control', result) = decode lib session ingress control in
    (control', deliver result ingress.received_ms)

unfoldable pub adapter_count_fragments : SendPacket → ℕ
adapter_count_fragments send = elim (copy_send_packet send) [
  | none ↦ 0
  | some normal ↦ count_fragments normal 0
]

unfoldable pub adapter_encode :
    Library → Option OpensslSession → Random → SendPacket → Option EgressData
adapter_encode lib session random send = send_encoded send (encode lib session random) format

unfoldable pub adapter_encode_fragment :
    Library → Option OpensslSession → Random → SendPacket → ℕ → ℕ → Option EgressData
adapter_encode_fragment lib session random send fragment_index fragment_count =
    send_encoded send
      (λ normal. encode_fragment lib session random normal fragment_index fragment_count) format

-- The functions that the outbox calls. `random` gives the numbers drawn for a fragment.
unfoldable pub adapter : Library → Option OpensslSession → (ℕ → Random) → Adapter
adapter lib session random = record {
  count_fragments = adapter_count_fragments;
  encode = adapter_encode lib session (random 0);
  encode_fragment =
      some (λ send i count. adapter_encode_fragment lib session (random i) send i count);
}
