-- ===== src/M7mux/Normalize.antt =====
-- src/stdlib/protocol/udp/m7mux/normalize/normalize.c and normalize/adapter/adapter.c: which codec takes
-- a datagram, and the packet that comes of it. The codecs are code behind function pointers: the
-- adapters of the registry are arguments.
pub mod Registry
pub mod Outcome
pub mod Admission
mod Tests
use siglatch.Prelude.{
  ℕ, zero, suc, ◌+◌, Bool, true, false, not, Option, none, some, List, [], ◌∷◌, ◌++◌, if◌then◌else◌,
  ltb, leb, ◌==◌, length, bytes_eq,
}
use siglatch.M7mux.Packet.{Bytes, Control, RecvPacket, zero_packet, packet_buffer_size}
use siglatch.M7mux.Ingress.{Datagram, Identity}

-- `M7MuxNormalizeAdapter` as far as receiving goes, with its state. `is_complete` is whether the
-- functions that must be there are, `creates` whether `create_state` is missing or succeeds.
pub record NormalizeAdapter : Type 0 where
  pub name : Bytes
  pub wire_version : ℕ
  pub is_complete : Bool
  pub creates : Bool
  pub detect : Datagram → Option Identity
  pub decode : Datagram → Control → Control × Option RecvPacket

-- `M7MUX_MAX_NORMALIZE_ADAPTERS`.
abbrev pub max_adapters : ℕ
max_adapters = 16

-- The loops over `g_adapters`, of which the first `g_adapter_count` are the list.
unfoldable pub lookup_adapter : List NormalizeAdapter → Bytes → Option NormalizeAdapter
lookup_adapter [] name = none
lookup_adapter (a ∷ adapters) name =
    let rest = lookup_adapter adapters name in if bytes_eq a.name name then some a else rest

unfoldable pub lookup_adapter_wire_version : List NormalizeAdapter → ℕ → Option NormalizeAdapter
lookup_adapter_wire_version [] wire_version = none
lookup_adapter_wire_version (a ∷ adapters) wire_version =
    let rest = lookup_adapter_wire_version adapters wire_version in
    if a.wire_version == wire_version then some a else rest

abbrev is_none : Option NormalizeAdapter → Bool
is_none none = true
is_none (some a) = false

unfoldable pub register_adapter :
    List NormalizeAdapter → NormalizeAdapter → List NormalizeAdapter × Bool
register_adapter adapters adapter =
    if not adapter.is_complete
    then (adapters, false)
    else if not (is_none (lookup_adapter adapters adapter.name))
    then (adapters, false)
    else if leb max_adapters (length adapters)
    then (adapters, false)
    else if not adapter.creates
    then (adapters, false)
    else (adapters ++ (adapter ∷ []), true)

-- The first adapter of the name is taken out and the others move up.
unfoldable pub unregister_adapter : List NormalizeAdapter → Bytes → List NormalizeAdapter × Bool
unregister_adapter [] name = ([], false)
unregister_adapter (a ∷ adapters) name =
    let (rest, removed) = unregister_adapter adapters name in
    if bytes_eq a.name name then (adapters, true) else (a ∷ rest, removed)

unfoldable pub demux : List NormalizeAdapter → Datagram → Option (NormalizeAdapter × Identity)
demux [] ingress = none
demux (a ∷ adapters) ingress =
    let rest = demux adapters ingress in
    elim (a.detect ingress) [ none ↦ rest | some identity ↦ some (a, identity) ]

abbrev pub with_user : Option RecvPacket → Option RecvPacket
with_user none = none
with_user (some out) = elim out.user [ none ↦ none | some user ↦ some out ]

-- `m7mux_normalize_adapter_decode`. `allocated` is whether the user's data find room.
unfoldable pub adapter_decode :
    Bool → NormalizeAdapter → Datagram → Control → Control × Option RecvPacket
adapter_decode false adapter ingress control = (control, none)
adapter_decode true adapter ingress control =
    let (control', out) = adapter.decode ingress control in (control', with_user out)

-- `M7MuxPolicyEnforceEncryption`.
pub data EnforceEncryption : Type 0 where
  enforce_any enforce_yes enforce_no : EnforceEncryption

-- `server_secure` is the codec context's, false where there is none.
unfoldable pub encryption_allowed : EnforceEncryption → Bool → Bool → Bool
encryption_allowed enforce_yes server_secure encrypted = encrypted
encryption_allowed enforce_no server_secure encrypted = not encrypted
encryption_allowed enforce_any server_secure encrypted = if server_secure then encrypted else true

-- The string "raw".
abbrev pub raw_label : Bytes
raw_label = 114 ∷ 97 ∷ 119 ∷ []

unfoldable pub raw_copy : Datagram → Option RecvPacket
raw_copy ingress =
    if ltb packet_buffer_size (length ingress.buffer)
    then none
    else some (record zero_packet {
      complete = true;
      received_ms = ingress.received_ms;
      label = raw_label;
      ip = ingress.ip;
      client_port = ingress.client_port;
      encrypted = ingress.encrypted;
      stream_id = 1;
      raw_bytes = ingress.buffer;
    })

unfoldable pub configure_ingress_identity : Datagram → Identity → Datagram
configure_ingress_identity ingress identity = record ingress {
  encrypted = identity.encrypted;
  magic = identity.magic;
  version = identity.version;
  form = identity.form;
}

-- A decoded packet under the address of its datagram.
unfoldable pub addressed : RecvPacket → Datagram → RecvPacket
addressed out ingress = record out {
  received_ms = ingress.received_ms;
  ip = ingress.ip;
  client_port = ingress.client_port;
  encrypted = ingress.encrypted;
  wire_decode = true;
}

-- `normalize_packet` after `demux` has found an adapter.
unfoldable pub normalize_with :
    EnforceEncryption
    → Bool
    → Bool
    → NormalizeAdapter
    → Identity
    → Datagram
    → Control
    → Control × Option RecvPacket
normalize_with policy server_secure allocated adapter identity ingress control =
    let configured = configure_ingress_identity ingress identity in
    let (control', result) = adapter_decode allocated adapter configured control in
    elim result [
      | none ↦ (control', raw_copy ingress)
      | some out ↦
          if not (encryption_allowed policy server_secure configured.encrypted)
          then (control', none)
          else (control', some (addressed out configured))
    ]

unfoldable pub normalize_packet :
    List NormalizeAdapter
    → EnforceEncryption
    → Bool
    → Bool
    → Datagram
    → Control
    → Control × Option RecvPacket
normalize_packet adapters policy server_secure allocated ingress control =
    elim (demux adapters ingress) [
      | none ↦ (control, raw_copy ingress)
      | some (adapter, identity) ↦
          normalize_with policy server_secure allocated adapter identity ingress control
    ]
