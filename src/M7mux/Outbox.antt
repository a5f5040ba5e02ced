-- ===== src/M7mux/Outbox.antt =====
-- src/stdlib/protocol/udp/m7mux/outbox/outbox.c: a packet is encoded and its datagrams are staged.
-- The codec's adapter is code behind function pointers: it is an argument, `none` where the lookup
-- by wire version finds no adapter.
pub mod Encoded
pub mod Atomic
mod Tests
use siglatch.Prelude.{
  ℕ, zero, suc, ◌+◌, ◌-◌, ◌%◌, ◌^◌, Bool, true, false, Option, none, some, List, [], ◌∷◌,
  if◌then◌else◌, ltb, leb, ◌==◌, length,
}
use siglatch.M7mux.Packet.{Bytes, SendPacket, EgressData, zero_egress, packet_buffer_size}
use siglatch.M7mux.Egress.{EgressState, egress_queue_capacity}
use siglatch.M7mux.Egress

-- The functions of `M7MuxNormalizeAdapter` that the outbox calls.
pub record Adapter : Type 0 where
  pub count_fragments : SendPacket → ℕ
  pub encode : SendPacket → Option EgressData
  pub encode_fragment : Option (SendPacket → ℕ → ℕ → Option EgressData)

-- Datagrams staged one after the other, up to the first that is refused.
unfoldable pub stage_all : EgressState → List EgressData → EgressState × Bool
stage_all state [] = (state, true)
stage_all state (e ∷ es) =
    let rest = stage_all (Egress.stage state e).0 es in
    if (Egress.stage state e).1 then rest else ((Egress.stage state e).0, false)

abbrev pub put_first : EgressData → Option (List EgressData) → Option (List EgressData)
put_first e none = none
put_first e (some es) = some (e ∷ es)

-- The fragments `i`, …, `i + n - 1` of `count`.
unfoldable pub encode_all :
    (SendPacket → ℕ → ℕ → Option EgressData) → SendPacket → ℕ → ℕ → ℕ → ℕ → Option (List EgressData)
encode_all encode_fragment send count forced i zero = some []
encode_all encode_fragment send count forced i (suc n) =
    let rest = encode_all encode_fragment send count forced (i + 1) n in
    elim (encode_fragment
      (record send { fragment_index = i % 2 ^ 32; fragment_count = count % 2 ^ 32 }) i forced) [
        | none ↦ none
        | some e ↦ put_first e rest
      ]

-- Encoding and staging of a packet in `count` fragments. `allocated` is whether `calloc` finds room.
unfoldable pub stage_encoded :
    Adapter → Bool → EgressState → SendPacket → ℕ → ℕ → EgressState × Bool
stage_encoded adapter allocated state send count forced =
    if count == 1
    then elim (adapter.encode send) [ none ↦ (state, false) | some e ↦ Egress.stage state e ]
    else elim adapter.encode_fragment [
      | none ↦ (state, false)
      | some encode_fragment ↦
          if allocated
          then elim (encode_all encode_fragment send count forced 0 count) [
            | none ↦ (state, false)
            | some es ↦ stage_all state es
          ]
          else (state, false)
    ]

unfoldable pub stage_common :
    Option Adapter → Bool → EgressState → SendPacket → ℕ → EgressState × Bool
stage_common none allocated state send force_count = (state, false)
stage_common (some adapter) allocated state send force_count =
    let forced = ltb 1 force_count in
    let count = if forced then force_count else adapter.count_fragments send in
    if count == 0
    then (state, false)
    else if leb egress_queue_capacity state.count
    then (state, false)
    else if ltb (egress_queue_capacity - state.count) count
    then (state, false)
    else stage_encoded adapter allocated state send count (if forced then force_count else 0)

unfoldable pub stage : Option Adapter → Bool → EgressState → SendPacket → EgressState × Bool
stage adapter allocated state send = stage_common adapter allocated state send 0

unfoldable pub stage_fragments :
    Option Adapter → Bool → EgressState → SendPacket → ℕ → EgressState × Bool
stage_fragments adapter allocated state send count =
    if leb count 1
    then stage adapter allocated state send
    else stage_common adapter allocated state send count

-- `M7MuxSendBytesPacket`; `bytes` is the pointer, and carries `bytes_len`.
pub record SendBytesPacket : Type 0 where
  pub trace_id : ℕ
  pub label : Bytes
  pub ip : Bytes
  pub client_port : ℕ
  pub received_ms : ℕ
  pub bytes : Bytes

unfoldable pub stage_bytes : EgressState → SendBytesPacket → EgressState × Bool
stage_bytes state send =
    if ltb packet_buffer_size (length send.bytes)
    then (state, false)
    else Egress.stage state (record zero_egress {
      trace_id = send.trace_id;
      label = send.label;
      received_ms = send.received_ms;
      ip = send.ip;
      client_port = send.client_port;
      egress_buffer = send.bytes;
    })
