-- ===== src/Codec/Pipeline/Tests.antt =====
-- The codecs in the multiplexer: the theorems at inputs.
use siglatch.Prelude.{
  ℕ, zero, suc, ◌≤◌, ◌≡◌, ◌≢◌, refl, sym, ap, ◌∙◌, true, none, some, List, [], ◌∷◌, length,
  replicate, get_elem?, arith,
}
use mathlib.Core.Option.{some-injective}
use siglatch.M7mux.Packet.{UserData, SendPacket, EgressData}
use siglatch.M7mux.Ingress.{Datagram, Identity}
use siglatch.M7mux.Normalize.{NormalizeAdapter, enforce_yes, encryption_allowed, normalize_packet}
use siglatch.Codec.Unit.{is_complete}
use siglatch.Codec.Sealed.{detect}
use siglatch.Codec.Sealed.Accept.{detect-is_exclusive}
use siglatch.Codec.Exchange.{sign_body, sign_with}
use siglatch.Codec.V3
use siglatch.Codec.V4
use siglatch.Codec.V4.Transfer.{adapter_encode}
use siglatch.Codec.V4.Transfer.Delivery.{arrived}
use siglatch.Codec.Pipeline.{v3_adapter, v4_adapter, adapter_encode-normalize_packet}
use siglatch.Codec.Tests.{plain, session, plain-IsPaired, datagram, control, random}

abbrev user : UserData
user = record {
  user_id = 15;
  action_id = 16;
  challenge = 17;
  hmac = replicate 32 0;
  payload = 104 ∷ 105 ∷ [];
}

abbrev send : SendPacket
send = record {
  trace_id = 1;
  label = [];
  wire_version = 0x00040000;
  wire_form = 1;
  received_ms = 0;
  session_id = 11;
  message_id = 12;
  stream_id = 13;
  fragment_index = 0;
  fragment_count = 1;
  timestamp = 14;
  ip = 50 ∷ [];
  client_port = 8;
  encrypted = true;
  wire_auth = true;
  user = some user;
}

-- The codecs of versions 3 and 4.
abbrev registry : List NormalizeAdapter
registry = v3_adapter plain (some session) ∷ v4_adapter plain (some session) ∷ []

differ : V4.format.wire_version ≢ V3.format.wire_version
differ e = absurd (omega (arith, e))

v3_alone :
    (j : ℕ) (b : NormalizeAdapter) (d : Datagram) (identity : Identity)
    → get_elem? registry j ≡ some b
    → j ≢ 1
    → detect V4.format d ≡ some identity
    → b.detect d ≡ none
unfolding v3_adapter
v3_alone zero b d identity there other h =
    let same = some-injective (v3_adapter plain (some session)) b there in
    ap (λ (x : NormalizeAdapter). x.detect d) (sym same)
    ∙ detect-is_exclusive V4.format V3.format d identity differ h
v3_alone (suc zero) b d identity there other h = absurd (other refl)
v3_alone (suc (suc j)) b d identity there other h = absurd (cc)

adapter_encode-normalize_packet_example :
    (egress : EgressData) × (adapter_encode plain (some session) random send ≡ some egress)
    × (length egress.egress_buffer ≤ 888)
    × ((normalize_packet registry enforce_yes true true
          (record datagram { buffer = egress.egress_buffer })
          control).1
        ≡ some (record (arrived send user (replicate 32 3) datagram) { ip = 49 ∷ [] }))
unfolding sign_body sign_with is_complete encryption_allowed
adapter_encode-normalize_packet_example =
    adapter_encode-normalize_packet plain session session (replicate 32 1) (replicate 12 2)
      (replicate 32 3) send user datagram control registry 1 enforce_yes true plain-IsPaired refl
      refl refl refl refl refl
      (record {
        session_id_fits = omega arith;
        message_id_fits = omega arith;
        stream_id_fits = omega arith;
        fragment_index_fits = omega arith;
        fragment_count_fits = omega arith;
      })
      (record {
        timestamp_fits = omega arith;
        user_id_fits = omega arith;
        challenge_fits = omega arith;
        hmac_length = refl;
        payload_fits = omega arith;
      })
      (omega arith) refl v3_alone refl
