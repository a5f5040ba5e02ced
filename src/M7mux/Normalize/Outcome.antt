-- ===== src/M7mux/Normalize/Outcome.antt =====
-- What src/stdlib/protocol/udp/m7mux/normalize/normalize.c may make of a datagram.
use siglatch.Prelude.{
  ◌≤◌, ◌<◌, ◌≡◌, Option, Bool, true, false, none, some, List, [], ◌∷◌, All, length, ◌⊎◌,
}
use siglatch.M7mux.Packet.{UserData, Control, RecvPacket, packet_buffer_size}
use siglatch.M7mux.Ingress.{Datagram, Identity}
use siglatch.M7mux.Normalize.{
  NormalizeAdapter, enforce_yes, enforce_no, enforce_any, adapter_decode, EnforceEncryption,
}

-- The first adapter that takes the datagram, and what it says of it.
abbrev pub IsFirst : List NormalizeAdapter → Datagram → NormalizeAdapter → Identity → Type 0
IsFirst [] ingress adapter identity = ⊥
IsFirst (a ∷ adapters) ingress adapter identity =
    ((a ≡ adapter) × (a.detect ingress ≡ some identity))
    ⊎ ((a.detect ingress ≡ none) × IsFirst adapters ingress adapter identity)

-- The datagram as its codec gets it, with what `detect` has said of it.
abbrev pub marked : Datagram → Identity → Datagram
marked ingress identity = record ingress {
  encrypted = identity.encrypted;
  magic = identity.magic;
  version = identity.version;
  form = identity.form;
}

-- Whether the policy allows an encrypted or a plain packet; where it does not say, a secure server
-- wants encrypted ones.
abbrev pub Obeys : EnforceEncryption → Bool → Bool → Type 0
Obeys enforce_yes server_secure encrypted = encrypted ≡ true
Obeys enforce_no server_secure encrypted = encrypted ≡ false
Obeys enforce_any true encrypted = encrypted ≡ true
Obeys enforce_any false encrypted = Unit

-- Whether the policy refuses it.
abbrev pub Disobeys : EnforceEncryption → Bool → Bool → Type 0
Disobeys enforce_yes server_secure encrypted = encrypted ≡ false
Disobeys enforce_no server_secure encrypted = encrypted ≡ true
Disobeys enforce_any true encrypted = encrypted ≡ false
Disobeys enforce_any false encrypted = ⊥

-- Why a datagram is left raw: no adapter takes it, or the first that does fails to decode it.
abbrev pub IsUndecoded : List NormalizeAdapter → Bool → Datagram → Control → Type 0
IsUndecoded adapters allocated ingress control =
    All (λ (a : NormalizeAdapter). a.detect ingress ≡ none) adapters
    ⊎ ((adapter : NormalizeAdapter) × (identity : Identity) × IsFirst adapters ingress adapter
          identity
        × ((adapter_decode allocated adapter (marked ingress identity) control).1 ≡ none))

-- A raw packet: the datagram's bytes, for stream 1 and under its address.
pub record IsRaw (ingress : Datagram) (out : RecvPacket) : Type 0 where
  pub undecoded : out.wire_decode ≡ false
  pub unversioned : out.wire_version ≡ 0
  pub stream : out.stream_id ≡ 1
  pub nobody : out.user ≡ none
  pub whole : out.raw_bytes ≡ ingress.buffer
  pub bounded : length out.raw_bytes ≤ packet_buffer_size
  pub from_ip : out.ip ≡ ingress.ip
  pub from_port : out.client_port ≡ ingress.client_port

-- The packet `decoded` that the first adapter's codec makes, with a user part, under the datagram's
-- address and as the policy allows.
pub record IsDecoded (adapters : List NormalizeAdapter) (policy : EnforceEncryption)
    (server_secure : Bool) (ingress : Datagram) (control : Control) (out : RecvPacket)
    : Type 0 where
  pub adapter : NormalizeAdapter
  pub identity : Identity
  pub decoded : RecvPacket
  pub user : UserData
  pub taken : IsFirst adapters ingress adapter identity
  pub made : (adapter.decode (marked ingress identity) control).1 ≡ some decoded
  pub has_user : decoded.user ≡ some user
  pub obeys : Obeys policy server_secure identity.encrypted
  pub same : out ≡ record decoded {
    received_ms = ingress.received_ms;
    ip = ingress.ip;
    client_port = ingress.client_port;
    encrypted = identity.encrypted;
    wire_decode = true;
  }

-- The first adapter's codec decodes the datagram, which the policy then refuses.
abbrev pub IsForbidden :
    List NormalizeAdapter → EnforceEncryption → Bool → Datagram → Control → Type 0
IsForbidden adapters policy server_secure ingress control =
    (adapter : NormalizeAdapter) × (identity : Identity) × (decoded : RecvPacket) × IsFirst adapters
      ingress adapter identity
    × ((adapter.decode (marked ingress identity) control).1 ≡ some decoded)
    × Disobeys policy server_secure identity.encrypted

-- What comes out of a datagram, or why nothing does.
abbrev pub IsNormalized :
    List NormalizeAdapter
    → EnforceEncryption
    → Bool
    → Bool
    → Datagram
    → Control
    → Option RecvPacket
    → Type 0
IsNormalized adapters policy server_secure allocated ingress control (some out) =
    (IsRaw ingress out × IsUndecoded adapters allocated ingress control)
    ⊎ IsDecoded adapters policy server_secure ingress control out
IsNormalized adapters policy server_secure allocated ingress control none =
    ((packet_buffer_size < length ingress.buffer) × IsUndecoded adapters allocated ingress control)
    ⊎ IsForbidden adapters policy server_secure ingress control
