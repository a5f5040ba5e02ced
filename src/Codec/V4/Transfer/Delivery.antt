-- ===== src/Codec/V4/Transfer/Delivery.antt =====
-- From `adapter_encode` of src/shared/knock/codec/v4/v4.c to `adapter_decode` at the other end.
use siglatch.Prelude.{
  ℕ, ◌≤◌, ◌≡◌, ◌≢◌, refl, ap, sym, subst, ◌∙◌, true, false, Option, some, length, take, replicate,
  arith, ltb, length-take, length-replicate,
}
use siglatch.M7mux.Packet.{
  Bytes, UserData, RecvPacket, zero_packet, Control, SendPacket, EgressData, packet_buffer_size,
}
use siglatch.M7mux.Ingress.{Datagram, Identity}
use siglatch.Codec.Unit.{
  NormalizedUnit, unit_of, is_complete, copy_send_packet, copy_recv_packet, fill_egress, egress_of,
  codec_label, user_payload_max,
}
use siglatch.Codec.Body.{FitsBody, carried, ip_max}
use siglatch.Codec.Sealed.{detect, form1_id, cek_size, nonce_size, packet_max_size}
use siglatch.Codec.Sealed.Accept.{detect-IsPrefixed, deserialize_wire-IsPrefixed, identity_of}
use siglatch.Codec.Exchange.{
  OpensslSession, Library, sign_body, Decoded, malformed, decoded, deliver, send_encoded,
}
use siglatch.Codec.Exchange.RoundTrip.{IsPaired}
use siglatch.Codec.V4.{format}
use siglatch.Codec.V4.RoundTrip.{FitsEnvelope, with_envelope}
use siglatch.Codec.V4.Transfer.{encode, decode, received, adapter_encode, adapter_decode}
use siglatch.Codec.V4.Transfer.RoundTrip.{encode-decode_v4}

-- The packet that a receiver makes of what was sent.
unfoldable pub arrived : SendPacket → UserData → Bytes → Datagram → RecvPacket
arrived send user hmac ingress = record zero_packet {
  complete = is_complete send.fragment_index send.fragment_count;
  wire_version = format.wire_version;
  wire_form = form1_id;
  received_ms = ingress.received_ms;
  session_id = send.session_id;
  message_id = send.message_id;
  stream_id = send.stream_id;
  fragment_index = send.fragment_index;
  fragment_count = send.fragment_count;
  timestamp = send.timestamp;
  label = codec_label;
  ip = take ip_max ingress.ip;
  client_port = ingress.client_port;
  encrypted = true;
  wire_decode = true;
  user = some (record user { hmac = hmac });
}

-- The unit that is sent, with the hmac it is sent with.
abbrev pub sent : SendPacket → UserData → Bytes → NormalizedUnit
sent send user hmac = record (unit_of send user) { hmac = hmac }

deliver-received :
    (send : SendPacket) (user : UserData) (hmac : Bytes) (ingress : Datagram)
    → length user.payload ≤ user_payload_max
    → deliver
        (decoded (
          received (
            carried
              (with_envelope (sent send user hmac))
              (sent send user hmac)
              ingress.ip
              ingress.client_port)))
        ingress.received_ms
      ≡ some (arrived send user hmac ingress)
unfolding deliver copy_recv_packet received carried with_envelope arrived
deliver-received send user hmac ingress small = ground arith

copy_send_packet-some :
    (send : SendPacket) (user : UserData)
    → send.user ≡ some user
    → length user.payload ≤ user_payload_max
    → copy_send_packet send ≡ some (unit_of send user)
unfolding copy_send_packet
copy_send_packet-some send user has small = rw (has, copy_send_packet) (ground arith)

fill_egress-some :
    (send : SendPacket) (buf : Bytes) (len : ℕ)
    → len ≤ packet_buffer_size
    → (egress : EgressData) × (fill_egress send buf len ≡ some egress)
      × (egress.egress_buffer ≡ take len buf)
unfolding fill_egress
fill_egress-some send buf len small =
    let room : ltb packet_buffer_size len ≡ false = ground arith in
    (egress_of send (take len buf), rw room refl, refl)

send_encoded-some :
    (send : SendPacket) (normal : NormalizedUnit)
    (encode : NormalizedUnit → Bytes → Option (Bytes × ℕ)) (out : Bytes × ℕ) (egress : EgressData)
    → copy_send_packet send ≡ some normal
    → encode normal (replicate (packet_max_size format) 0) ≡ some out
    → fill_egress send out.0 out.1 ≡ some egress
    → send_encoded send encode format ≡ some egress
unfolding send_encoded
send_encoded-some send normal encode out egress copies encodes fills =
    rw (copies, encodes, fills) refl

-- A packet that carries at most 199 bytes for a user, and whose fields fit, is sent as one datagram of
-- at most 888 bytes. The receiver, whose session unwraps the sender's keys, gets the packet: the same
-- session, message, stream and fragment, the same user data under the hmac that was sent, and the
-- address that the datagram came from.
pub adapter_encode-adapter_decode :
    (lib : Library) (sender receiver : OpensslSession) (cek nonce hmac : Bytes) (send : SendPacket)
    (user : UserData) (ingress : Datagram) (control : Control)
    → IsPaired lib sender receiver
    → length cek ≡ cek_size
    → length nonce ≡ nonce_size
    → send.user ≡ some user
    → send.wire_version ≡ format.wire_version
    → send.wire_form ≡ form1_id
    → sign_body lib (some sender) (unit_of send user) ≡ some (sent send user hmac)
    → FitsEnvelope (sent send user hmac)
    → FitsBody (sent send user hmac)
    → length user.payload ≤ user_payload_max
    → (egress : EgressData) × (adapter_encode lib
          (some sender)
          (record { cek = some cek; nonce = some nonce })
          send
        ≡ some egress)
      × (length egress.egress_buffer ≤ 888)
      × (detect format (record ingress { buffer = egress.egress_buffer })
          ≡ some (identity_of format))
      × ((adapter_decode lib
            (some receiver)
            (record ingress { buffer = egress.egress_buffer })
            control).1
          ≡ some (arrived send user hmac ingress))
unfolding adapter_encode adapter_decode
adapter_encode-adapter_decode lib sender receiver cek nonce hmac send user ingress control paired c
      n has version form signed envelope fits small =
    let buf = replicate (packet_max_size format) 0 in
    let (out, encodes, bound, detects, decodes) =
      encode-decode_v4 lib sender receiver cek nonce buf (unit_of send user) (sent send user hmac)
        ingress control paired c n version form signed envelope fits
        (omega (arith, length-replicate {A = ℕ} (packet_max_size format) 0)) in
    let (egress, fills, same) = fill_egress-some send out.0 out.1 (omega (arith, bound)) in
    let copies = copy_send_packet-some send user has small in
    (
      egress,
      send_encoded-some send (unit_of send user)
          (encode lib (some sender) (record { cek = some cek; nonce = some nonce })) out egress
          copies encodes fills,
      omega (arith, bound, ap length same, length-take out.1 out.0),
      subst (λ b. detect format (record ingress { buffer = b }) ≡ some (identity_of format))
          (sym same) detects,
      subst
          (λ b.
            (adapter_decode lib (some receiver) (record ingress { buffer = b }) control).1
            ≡ some (arrived send user hmac ingress))
          (sym same)
          (ap (λ (p : Control × Decoded). deliver p.1 ingress.received_ms) decodes
            ∙ deliver-received send user hmac ingress small),
    )

-- A datagram that `detect` has taken is never refused by `decode` with the code for a malformed one,
-- which its caller takes for a success.
pub adapter_decode-detected :
    (lib : Library) (session : Option OpensslSession) (ingress : Datagram) (found : Identity)
    (control : Control)
    → detect format ingress ≡ some found
    → (decode lib session ingress control).1 ≢ malformed
unfolding decode
adapter_decode-detected lib session ingress found control h e =
    let accepted =
      deserialize_wire-IsPrefixed format ingress.buffer
        (detect-IsPrefixed format ingress found h) in
    ground (arith, accepted)
