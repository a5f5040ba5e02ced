-- ===== src/Codec/Unit.antt =====
-- src/shared/knock/codec/normalized.h, and how src/shared/knock/codec/v4/v4.c translates between a
-- normalized unit and the multiplexer's packets; v1.c and v3.c have the same functions.
use siglatch.Prelude.{
  ℕ, ◌+◌, ◌%◌, ◌^◌, Bool, true, false, Option, none, some, [], ◌∷◌, if◌then◌else◌, ltb, leb, ◌==◌,
  length, take,
}
use siglatch.M7mux.Packet.{Bytes, UserData, RecvPacket, zero_packet, SendPacket, EgressData}
use siglatch.M7mux.Packet.{packet_buffer_size}

-- `SharedKnockNormalizedUnit`; the payload's bytes carry `payload_len`.
pub record NormalizedUnit : Type 0 where
  pub complete : Bool
  pub wire_version : ℕ
  pub wire_form : ℕ
  pub session_id : ℕ
  pub message_id : ℕ
  pub stream_id : ℕ
  pub fragment_index : ℕ
  pub fragment_count : ℕ
  pub timestamp : ℕ
  pub user_id : ℕ
  pub action_id : ℕ
  pub challenge : ℕ
  pub hmac : Bytes
  pub ip : Bytes
  pub client_port : ℕ
  pub encrypted : Bool
  pub wire_decode : Bool
  pub wire_auth : Bool
  pub payload : Bytes

abbrev pub zero_unit : NormalizedUnit
zero_unit = record {
  complete = false;
  wire_version = 0;
  wire_form = 0;
  session_id = 0;
  message_id = 0;
  stream_id = 0;
  fragment_index = 0;
  fragment_count = 0;
  timestamp = 0;
  user_id = 0;
  action_id = 0;
  challenge = 0;
  hmac = [];
  ip = [];
  client_port = 0;
  encrypted = false;
  wire_decode = false;
  wire_auth = false;
  payload = [];
}

-- `M7MUX_USER_DATA_PAYLOAD_MAX`.
abbrev pub user_payload_max : ℕ
user_payload_max = 199

-- `SHARED_KNOCK_NORMALIZED_PAYLOAD_MAX`.
abbrev pub normalized_payload_max : ℕ
normalized_payload_max = 1024

-- The string "codec".
abbrev pub codec_label : Bytes
codec_label = 99 ∷ 111 ∷ 100 ∷ 101 ∷ 99 ∷ []

-- Whether this is the last fragment, or the whole message; `fragment_index + 1` is a `uint32_t`.
unfoldable pub is_complete : ℕ → ℕ → Bool
is_complete fragment_index fragment_count =
    if fragment_count == 0 then true else leb fragment_count ((fragment_index + 1) % 2 ^ 32)

unfoldable pub copy_recv_packet : NormalizedUnit → Option RecvPacket
copy_recv_packet src =
    if ltb user_payload_max (length src.payload)
    then none
    else some (record zero_packet {
      complete = src.complete;
      wire_version = src.wire_version;
      wire_form = src.wire_form;
      session_id = src.session_id;
      message_id = src.message_id;
      stream_id = src.stream_id;
      fragment_index = src.fragment_index;
      fragment_count = src.fragment_count;
      timestamp = src.timestamp;
      label = codec_label;
      ip = src.ip;
      client_port = src.client_port;
      encrypted = src.encrypted;
      wire_decode = src.wire_decode;
      wire_auth = src.wire_auth;
      user = some (record {
        user_id = src.user_id;
        action_id = src.action_id;
        challenge = src.challenge;
        hmac = src.hmac;
        payload = src.payload;
      });
    })

abbrev pub unit_of : SendPacket → UserData → NormalizedUnit
unit_of src user = record {
  complete = is_complete src.fragment_index src.fragment_count;
  wire_version = src.wire_version;
  wire_form = src.wire_form;
  session_id = src.session_id;
  message_id = src.message_id;
  stream_id = src.stream_id;
  fragment_index = src.fragment_index;
  fragment_count = src.fragment_count;
  timestamp = src.timestamp;
  user_id = user.user_id;
  action_id = user.action_id;
  challenge = user.challenge;
  hmac = user.hmac;
  ip = src.ip;
  client_port = src.client_port;
  encrypted = src.encrypted;
  wire_decode = false;
  wire_auth = src.wire_auth;
  payload = user.payload;
}

unfoldable pub copy_send_packet : SendPacket → Option NormalizedUnit
copy_send_packet src = elim src.user [
  | none ↦ none
  | some user ↦
      if ltb normalized_payload_max (length user.payload) then none else some (unit_of src user)
]

abbrev pub egress_of : SendPacket → Bytes → EgressData
egress_of src bytes = record {
  trace_id = src.trace_id;
  label = src.label;
  wire_version = src.wire_version;
  wire_form = src.wire_form;
  received_ms = src.received_ms;
  session_id = src.session_id;
  message_id = src.message_id;
  stream_id = src.stream_id;
  fragment_index = src.fragment_index;
  fragment_count = src.fragment_count;
  timestamp = src.timestamp;
  ip = src.ip;
  client_port = src.client_port;
  encrypted = src.encrypted;
  wire_auth = src.wire_auth;
  egress_buffer = bytes;
}

-- `m7mux_normalize_adapter_fill_egress`. The first `payload_len` bytes of the buffer `payload` go out.
unfoldable pub fill_egress : SendPacket → Bytes → ℕ → Option EgressData
fill_egress src payload payload_len =
    if ltb packet_buffer_size payload_len
    then none
    else some (egress_of src (take payload_len payload))
