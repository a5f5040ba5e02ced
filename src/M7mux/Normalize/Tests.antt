-- ===== src/M7mux/Normalize/Tests.antt =====
-- src/stdlib/protocol/udp/m7mux/normalize: the theorems at inputs.
use siglatch.Prelude.{◌≡◌, refl, true, false, some, [], ◌∷◌, bytes_eq}
use siglatch.M7mux.Packet.{Control, RecvPacket, zero_packet, UserData}
use siglatch.M7mux.Ingress.{Datagram, zero_datagram}
use siglatch.M7mux.Normalize.{
  NormalizeAdapter, lookup_adapter, register_adapter, unregister_adapter, demux, adapter_decode,
  enforce_yes, encryption_allowed, raw_copy, addressed, normalize_with, normalize_packet,
  configure_ingress_identity,
}
use siglatch.M7mux.Normalize.Outcome.{IsNormalized}
use siglatch.M7mux.Normalize.Admission.{normalize_packet-IsNormalized}

abbrev user : UserData
user = record { user_id = 1; action_id = 2; challenge = 3; hmac = []; payload = [] }

-- A codec that takes every datagram as encrypted.
abbrev taking : NormalizeAdapter
taking = record {
  name = 97 ∷ [];
  wire_version = 7;
  is_complete = true;
  creates = true;
  detect = λ d. some (record { encrypted = true; magic = 1; version = 7; form = 1 });
  decode = λ d c. (c, some (record zero_packet { user = some user }));
}

abbrev control : Control
control = record { stream_type = 0; session_by_client = 0 }

abbrev knock : Datagram
knock = record zero_datagram { ip = 49 ∷ []; client_port = 9; received_ms = 5 }

abbrev taken : RecvPacket
taken = record zero_packet {
  user = some user;
  received_ms = 5;
  ip = 49 ∷ [];
  client_port = 9;
  encrypted = true;
  wire_decode = true;
}

normalize_packet-taken :
    (normalize_packet (taking ∷ []) enforce_yes false true knock control).1 ≡ some taken
unfolding normalize_packet normalize_with demux adapter_decode encryption_allowed addressed
    configure_ingress_identity
normalize_packet-taken = refl

normalize_packet-IsNormalized_example :
    IsNormalized
      (taking ∷ [])
      enforce_yes
      false
      true
      knock
      control
      (normalize_packet (taking ∷ []) enforce_yes false true knock control).1
normalize_packet-IsNormalized_example =
    normalize_packet-IsNormalized (taking ∷ []) enforce_yes false true knock control

-- With no codec, a datagram comes out raw, though the policy demands encryption.
raw_despite_policy :
    (normalize_packet [] enforce_yes true true knock control).1
    ≡ some (record zero_packet {
      complete = true;
      received_ms = 5;
      label = 114 ∷ 97 ∷ 119 ∷ [];
      ip = 49 ∷ [];
      client_port = 9;
      stream_id = 1;
    })
unfolding normalize_packet demux raw_copy
raw_despite_policy = refl

-- A name is taken once.
register_twice : register_adapter (register_adapter [] taking).0 taking ≡ (taking ∷ [], false)
unfolding register_adapter lookup_adapter bytes_eq
register_twice = refl

unregister_first : unregister_adapter (taking ∷ []) (97 ∷ []) ≡ ([], true)
unfolding unregister_adapter bytes_eq
unregister_first = refl
