-- ===== src/Codec/Pipeline.antt =====
-- The codecs of src/shared/knock/codec in the registry of src/stdlib/protocol/udp/m7mux/normalize.
mod Tests
use siglatch.Prelude.{
  ℕ, ◌+◌, ◌≤◌, ◌<◌, ◌≡◌, ◌≢◌, refl, ap, sym, ◌∙◌, Bool, true, false, not, Option, none, some, List,
  [], ◌∷◌, length, get_elem?, arith,
}
use siglatch.M7mux.Packet.{Bytes, UserData, RecvPacket, Control, SendPacket, EgressData}
use siglatch.M7mux.Ingress.{Datagram, Identity}
use siglatch.M7mux.Normalize.{
  NormalizeAdapter, demux, EnforceEncryption, encryption_allowed, configure_ingress_identity,
  addressed, normalize_with, normalize_packet, with_user,
}
use siglatch.M7mux.Normalize
use siglatch.M7mux.Normalize.Registry.{demux-detected}
use siglatch.Codec.Unit.{unit_of, user_payload_max}
use siglatch.Codec.Body.{FitsBody}
use siglatch.Codec.Sealed
use siglatch.Codec.Sealed.{detect, form1_id, cek_size, nonce_size}
use siglatch.Codec.Sealed.Accept.{identity_of}
use siglatch.Codec.Exchange.{OpensslSession, Library, Random, sign_body}
use siglatch.Codec.Exchange.RoundTrip.{IsPaired}
use siglatch.Codec.V3
use siglatch.Codec.V3.Transfer as V3Transfer
use siglatch.Codec.V4
use siglatch.Codec.V4.RoundTrip.{FitsEnvelope}
use siglatch.Codec.V4.Transfer as V4Transfer
use siglatch.Codec.V4.Transfer.Delivery.{sent, arrived, adapter_encode-adapter_decode}

-- `shared_knock_codec_v3_adapter`; its name is "codec.v3".
unfoldable pub v3_adapter : Library → Option OpensslSession → NormalizeAdapter
v3_adapter lib session = record {
  name = 99 ∷ 111 ∷ 100 ∷ 101 ∷ 99 ∷ 46 ∷ 118 ∷ 51 ∷ [];
  wire_version = V3.format.wire_version;
  is_complete = true;
  creates = true;
  detect = V3.detect;
  decode = λ ingress control. (control, V3Transfer.adapter_decode lib session ingress);
}

-- `shared_knock_codec_v4_adapter`; its name is "codec.v4".
unfoldable pub v4_adapter : Library → Option OpensslSession → NormalizeAdapter
v4_adapter lib session = record {
  name = 99 ∷ 111 ∷ 100 ∷ 101 ∷ 99 ∷ 46 ∷ 118 ∷ 52 ∷ [];
  wire_version = V4.format.wire_version;
  is_complete = true;
  creates = true;
  detect = detect V4.format;
  decode = V4Transfer.adapter_decode lib session;
}

normalize_with-some :
    (lib : Library) (session : Option OpensslSession) (policy : EnforceEncryption)
    (server_secure : Bool) (ingress : Datagram) (control : Control) (send : SendPacket)
    (user : UserData) (hmac : Bytes)
    → encryption_allowed policy server_secure true ≡ true
    → (V4Transfer.adapter_decode lib session
        (configure_ingress_identity ingress (identity_of V4.format))
        control).1
      ≡ some (arrived send user hmac ingress)
    → (normalize_with policy server_secure true
        (v4_adapter lib session)
        (identity_of V4.format)
        ingress
        control).1
      ≡ some (record (arrived send user hmac ingress) { ip = ingress.ip })
unfolding normalize_with Normalize.adapter_decode v4_adapter arrived addressed
    configure_ingress_identity
normalize_with-some lib session policy server_secure ingress control send user hmac allowed
      decodes =
    rw (decodes, normalize_with) (rw allowed refl)

-- Between sessions that are paired, with a random key of 32 bytes and a nonce of 12: a packet of version 4
-- that carries at most 199 bytes for a user, and whose fields fit once it is signed, goes from a sender's
-- codec through the multiplexer of a receiver whose registry has that codec at any place, whose other
-- codecs leave datagrams of the version alone and whose policy allows encrypted packets: the packet that
-- comes out has the same session, message, stream and fragment, the same user data under the hmac that
-- was sent, and the address of the datagram, which has at most 888 bytes.
pub adapter_encode-normalize_packet :
    (lib : Library) (sender receiver : OpensslSession) (cek nonce hmac : Bytes) (send : SendPacket)
    (user : UserData) (ingress : Datagram) (control : Control) (adapters : List NormalizeAdapter)
    (i : ℕ) (policy : EnforceEncryption) (server_secure : Bool)
    → IsPaired lib sender receiver
    → length cek ≡ cek_size
    → length nonce ≡ nonce_size
    → send.user ≡ some user
    → send.wire_version ≡ V4.format.wire_version
    → send.wire_form ≡ form1_id
    → sign_body lib (some sender) (unit_of send user) ≡ some (sent send user hmac)
    → FitsEnvelope (sent send user hmac)
    → FitsBody (sent send user hmac)
    → length user.payload ≤ user_payload_max
    → get_elem? adapters i ≡ some (v4_adapter lib (some receiver))
    → ((j : ℕ) (b : NormalizeAdapter) (d : Datagram) (identity : Identity)
        → get_elem? adapters j ≡ some b
        → j ≢ i
        → detect V4.format d ≡ some identity
        → b.detect d ≡ none)
    → encryption_allowed policy server_secure true ≡ true
    → (egress : EgressData) × (V4Transfer.adapter_encode lib
          (some sender)
          (record { cek = some cek; nonce = some nonce })
          send
        ≡ some egress)
      × (length egress.egress_buffer ≤ 888)
      × ((normalize_packet adapters policy server_secure true
            (record ingress { buffer = egress.egress_buffer })
            control).1
          ≡ some (record (arrived send user hmac ingress) { ip = ingress.ip }))
unfolding normalize_packet detect v4_adapter configure_ingress_identity arrived
adapter_encode-normalize_packet lib sender receiver cek nonce hmac send user ingress control
      adapters i policy server_secure paired c n has version form signed envelope fits small at
      alone allowed =
    let identity = identity_of V4.format in
    let (egress, encodes, bound, detects, decodes) =
      adapter_encode-adapter_decode lib sender receiver cek nonce hmac send user
        (configure_ingress_identity ingress identity) control paired c n has version form signed
        envelope fits small in
    let datagram : Datagram = record ingress { buffer = egress.egress_buffer } in
    let found =
      demux-detected adapters datagram i (v4_adapter lib (some receiver)) identity at detects
        (λ j b there differ. alone j b datagram identity there differ detects) in
    (
      egress,
      encodes,
      bound,
      rw (found, normalize_packet)
          (normalize_with-some lib (some receiver) policy server_secure datagram control send user
            hmac allowed decodes),
    )
