-- ===== src/Codec/V3/Transfer/RoundTrip.antt =====
-- What `encode` of src/shared/knock/codec/v4/v3.c sends is what `decode` receives.
use siglatch.Prelude.{ℕ, ◌≤◌, ◌≡◌, refl, ap, ◌∙◌, some, length, take, arith}
use siglatch.M7mux.Packet.{Bytes}
use siglatch.M7mux.Ingress.{Datagram}
use siglatch.Codec.Unit.{NormalizedUnit, zero_unit}
use siglatch.Codec.Body.{FitsBody, carried}
use siglatch.Codec.Sealed.{
  WirePacket, ok, deserialize_wire, form1_id, payload_max, body_max, cek_size, nonce_size,
}
use siglatch.Codec.Exchange.{
  OpensslSession, Library, Random, decrypt_packet, sign_body, seal, decoded,
}
use siglatch.Codec.Exchange.RoundTrip.{IsPaired, seal-decrypt_packet, sign_body-hmac}
use siglatch.Codec.V3.{format, plaintext_size, pack_plaintext, unpack_plaintext}
use siglatch.Codec.V3.RoundTrip.{pack_plaintext-unpack_plaintext}
use siglatch.Codec.V3.Transfer.{encode, decode, received, decrypt_and_unpack_packet}

-- A packet that is accepted, decrypted and unpacked is decoded.
decode-some :
    (lib : Library) (receiver : OpensslSession) (ingress : Datagram) (pkt : WirePacket)
    (plaintext : Bytes) (out : NormalizedUnit)
    → deserialize_wire format ingress.buffer ≡ ok pkt
    → decrypt_packet lib (some receiver) pkt ≡ some plaintext
    → unpack_plaintext plaintext ingress.ip ingress.client_port ≡ some out
    → decode lib (some receiver) ingress ≡ decoded (received out)
unfolding decode decrypt_and_unpack_packet
decode-some lib receiver ingress pkt plaintext out accepted decrypted unpacked =
    rw (accepted, decode) (rw (decrypted, unpacked) refl)

encode-some :
    (lib : Library) (sender : OpensslSession) (random : Random) (normal body : NormalizedUnit)
    (plaintext out_buf : Bytes) (out : Bytes × ℕ)
    → normal.wire_version ≡ format.wire_version
    → normal.wire_form ≡ form1_id
    → length normal.payload ≤ payload_max
    → sign_body lib (some sender) normal ≡ some body
    → pack_plaintext body (body_max format) ≡ some plaintext
    → seal format lib (some sender) random plaintext out_buf ≡ some out
    → encode lib (some sender) random normal out_buf ≡ some out
unfolding encode
encode-some lib sender random normal body plaintext out_buf out version form small signed packed
      sealed =
    ground (arith, signed, packed, sealed)

-- Between sessions that are paired, with a random key of 32 bytes and a nonce of 12: a unit of version 3
-- whose fields fit, signed where it asks to be, is encoded into a buffer of at least 858 bytes, as a
-- packet of at most that many. The receiver decodes the packet to the same body, under the address the
-- datagram came from, as a message of one fragment.
pub encode-decode_v3 :
    (lib : Library) (sender receiver : OpensslSession) (cek nonce out_buf : Bytes)
    (normal body : NormalizedUnit) (ingress : Datagram)
    → IsPaired lib sender receiver
    → length cek ≡ cek_size
    → length nonce ≡ nonce_size
    → normal.wire_version ≡ format.wire_version
    → normal.wire_form ≡ form1_id
    → sign_body lib (some sender) normal ≡ some body
    → FitsBody body
    → 858 ≤ length out_buf
    → (out : Bytes × ℕ) × (encode lib
          (some sender)
          (record { cek = some cek; nonce = some nonce })
          normal
          out_buf
        ≡ some out)
      × (out.1 ≤ 858)
      × (decode lib (some receiver) (record ingress { buffer = take out.1 out.0 })
          ≡ decoded (received (carried zero_unit body ingress.ip ingress.client_port)))
unfolding plaintext_size
encode-decode_v3 lib sender receiver cek nonce out_buf normal body ingress paired c n version form
      signed fits room =
    let (body_version, body_form, body_payload) =
      sign_body-hmac lib (some sender) normal body signed in
    let (plaintext, packs, size, unpacks) =
      pack_plaintext-unpack_plaintext body (body_max format) ingress.ip ingress.client_port fits
        (body_version ∙ version) (body_form ∙ form) (omega (arith, fits.payload_fits)) in
    let (out, pkt, seals, bound, accepted, decrypted) =
      seal-decrypt_packet format lib sender receiver cek nonce plaintext out_buf
        (record { body_is_int = omega arith; version_fits = omega arith }) paired c n
        (omega (arith, size)) (omega (arith, size, fits.payload_fits)) (omega (arith, room)) in
    (
      out,
      encode-some lib sender (record { cek = some cek; nonce = some nonce }) normal body plaintext
          out_buf out version form (omega (arith, fits.payload_fits, ap length body_payload)) signed
          packs seals,
      omega (arith, bound),
      decode-some lib receiver (record ingress { buffer = take out.1 out.0 }) pkt plaintext
          (carried zero_unit body ingress.ip ingress.client_port) accepted decrypted unpacks,
    )
