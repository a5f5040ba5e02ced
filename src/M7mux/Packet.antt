-- ===== src/M7mux/Packet.antt =====
-- src/stdlib/protocol/udp/m7mux/normalize/normalize.h and src/shared/knock/codec/user.h: the units
-- that pass through the multiplexer.
use siglatch.Prelude.{ℕ, Bool, false, Option, none, List, []}

-- A C string or byte buffer: the bytes that are in use, with no terminator.
abbrev pub Bytes : Type 0
Bytes = List ℕ

-- `M7MuxUserRecvData` and `M7MuxUserSendData`, which have the same fields; the payload's bytes carry
-- `payload_len`.
pub record UserData : Type 0 where
  pub user_id : ℕ
  pub action_id : ℕ
  pub challenge : ℕ
  pub hmac : Bytes
  pub payload : Bytes

-- `M7MuxRecvPacket`. An `int` that is only tested is a Boolean, `raw_bytes` carries its length, and
-- `user` is what the pointer leads to.
pub record RecvPacket : Type 0 where
  pub complete : Bool
  pub should_reply : Bool
  pub synthetic_session : Bool
  pub wire_version : ℕ
  pub wire_form : ℕ
  pub received_ms : ℕ
  pub session_id : ℕ
  pub message_id : ℕ
  pub stream_id : ℕ
  pub fragment_index : ℕ
  pub fragment_count : ℕ
  pub timestamp : ℕ
  pub label : Bytes
  pub ip : Bytes
  pub client_port : ℕ
  pub encrypted : Bool
  pub wire_decode : Bool
  pub wire_auth : Bool
  pub raw_bytes : Bytes
  pub user : Option UserData

-- What `memset(packet, 0, sizeof(*packet))` leaves.
abbrev pub zero_packet : RecvPacket
zero_packet = record {
  complete = false;
  should_reply = false;
  synthetic_session = false;
  wire_version = 0;
  wire_form = 0;
  received_ms = 0;
  session_id = 0;
  message_id = 0;
  stream_id = 0;
  fragment_index = 0;
  fragment_count = 0;
  timestamp = 0;
  label = [];
  ip = [];
  client_port = 0;
  encrypted = false;
  wire_decode = false;
  wire_auth = false;
  raw_bytes = [];
  user = none;
}

-- `M7MuxControl`.
pub record Control : Type 0 where
  pub stream_type : ℕ
  pub session_by_client : ℕ

-- `M7MuxSendPacket`.
pub record SendPacket : Type 0 where
  pub trace_id : ℕ
  pub label : Bytes
  pub wire_version : ℕ
  pub wire_form : ℕ
  pub received_ms : ℕ
  pub session_id : ℕ
  pub message_id : ℕ
  pub stream_id : ℕ
  pub fragment_index : ℕ
  pub fragment_count : ℕ
  pub timestamp : ℕ
  pub ip : Bytes
  pub client_port : ℕ
  pub encrypted : Bool
  pub wire_auth : Bool
  pub user : Option UserData

-- `M7MuxEgressData`; the buffer carries `egress_len`.
pub record EgressData : Type 0 where
  pub trace_id : ℕ
  pub label : Bytes
  pub wire_version : ℕ
  pub wire_form : ℕ
  pub received_ms : ℕ
  pub session_id : ℕ
  pub message_id : ℕ
  pub stream_id : ℕ
  pub fragment_index : ℕ
  pub fragment_count : ℕ
  pub timestamp : ℕ
  pub ip : Bytes
  pub client_port : ℕ
  pub encrypted : Bool
  pub wire_auth : Bool
  pub egress_buffer : Bytes

abbrev pub zero_egress : EgressData
zero_egress = record {
  trace_id = 0;
  label = [];
  wire_version = 0;
  wire_form = 0;
  received_ms = 0;
  session_id = 0;
  message_id = 0;
  stream_id = 0;
  fragment_index = 0;
  fragment_count = 0;
  timestamp = 0;
  ip = [];
  client_port = 0;
  encrypted = false;
  wire_auth = false;
  egress_buffer = [];
}

-- `M7MUX_NORMALIZED_PACKET_BUFFER_SIZE`.
abbrev pub packet_buffer_size : ℕ
packet_buffer_size = 1024
