-- ===== src/Codec/V3/Transfer.antt =====
-- `decode`, `encode` and the adapter of src/shared/knock/codec/v3/v3.c.
pub mod RoundTrip
use siglatch.Prelude.{
  ℕ, ◌+◌, Bool, true, false, Option, none, some, ◌||◌, not, List, [], ◌∷◌, if◌then◌else◌, ltb, ◌==◌,
  length,
}
use siglatch.M7mux.Packet.{Bytes, RecvPacket, SendPacket, EgressData}
use siglatch.M7mux.Ingress.{Datagram}
use siglatch.Codec.Unit.{NormalizedUnit, copy_send_packet}
use siglatch.Codec.Sealed.{WirePacket, Result, ok, err, form1_id, payload_max, body_max}
use siglatch.Codec.Exchange.{
  OpensslSession, Library, Random, ◌>>=◌, decrypt_packet, sign_body, seal, Decoded, failed,
  malformed, decoded, deliver, send_encoded,
}
use siglatch.Codec.V3.{format, deserialize_wire, pack_plaintext, unpack_plaintext, count_fragments}

unfoldable pub decrypt_and_unpack_packet :
    Library → Option OpensslSession → WirePacket → Bytes → ℕ → Option NormalizedUnit
decrypt_and_unpack_packet lib session pkt ip client_port =
    decrypt_packet lib session pkt >>= (λ plaintext. unpack_plaintext plaintext ip client_port)

-- What `decode` sets in a unit that was unpacked: a message of its own.
unfoldable pub received : NormalizedUnit → NormalizedUnit
received out = record out {
  complete = true;
  wire_version = format.wire_version;
  wire_form = form1_id;
  session_id = 0;
  message_id = 0;
  stream_id = 0;
  fragment_index = 0;
  fragment_count = 1;
  encrypted = true;
  wire_decode = true;
  wire_auth = false;
}

abbrev received? : Option NormalizedUnit → Decoded
received? none = failed
received? (some out) = decoded (received out)

unfoldable pub decode : Library → Option OpensslSession → Datagram → Decoded
decode lib session ingress = elim (deserialize_wire ingress.buffer) [
  | err e ↦ malformed
  | ok pkt ↦ received? (decrypt_and_unpack_packet lib session pkt ingress.ip ingress.client_port)
]

-- The buffer and its length: `seal` says how.
unfoldable pub encode :
    Library → Option OpensslSession → Random → NormalizedUnit → Bytes → Option (Bytes × ℕ)
encode lib session random normal out_buf =
    if not (normal.wire_version == format.wire_version) || not (normal.wire_form == form1_id)
    then none
    else if ltb payload_max (length normal.payload)
    then none
    else do
      body ← sign_body lib session normal
      plaintext ← pack_plaintext body (body_max format)
      seal format lib session random plaintext out_buf

unfoldable pub adapter_decode : Library → Option OpensslSession → Datagram → Option RecvPacket
adapter_decode lib session ingress = deliver (decode lib session ingress) ingress.received_ms

unfoldable pub adapter_count_fragments : SendPacket → ℕ
adapter_count_fragments send = elim (copy_send_packet send) [
  | none ↦ 0
  | some normal ↦ count_fragments normal 0
]

unfoldable pub adapter_encode :
    Library → Option OpensslSession → Random → SendPacket → Option EgressData
adapter_encode lib session random send = send_encoded send (encode lib session random) format
