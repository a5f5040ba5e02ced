-- ===== src/M7mux/Stream/Delivery.antt =====
-- src/stdlib/protocol/udp/m7mux/stream/stream.c: how queued fragments leave the table, by `drain` or
-- by `expire`, and the calls that a stream takes.
use siglatch.Prelude.{
  ℕ, ◌+◌, ◌-◌, ◌^◌, Bool, false, ◌&&◌, ◌||◌, not, Option, none, some, List, [], ◌∷◌, if◌then◌else◌,
  ltb, leb, ◌==◌, set, find_slot,
}
use siglatch.M7mux.Packet.{UserData, RecvPacket, zero_packet}
use siglatch.M7mux.Stream.{
  MessageTracker, SessionTracker, StreamState, is_free, is_expired, packet_is_deliverable,
  find_session_tracker, find_message_tracker, ingest,
}

-- What `drain` reports: nothing to deliver (the output is cleared), 0 with the output as it was, or a
-- packet.
pub data Drained : Type 0 where
  idle refused : Drained
  delivered : RecvPacket → Drained

-- The slot is cleared, and the count goes down unless it is 0.
unfoldable pub clear_slot : StreamState → ℕ → StreamState
clear_slot state i = record state {
  ready_queue = set state.ready_queue i zero_packet;
  ready_count = state.ready_count - 1;
}

-- The next fragment is awaited, or after the last one the tracker lets the message go.
unfoldable pub advance_tracker : MessageTracker → MessageTracker
advance_tracker tracker =
    let index = tracker.next_fragment_index in
    let next = if ltb index (2 ^ 32 - 1) then index + 1 else index in
    if tracker.fragment_count == 0 || leb tracker.fragment_count next
    then record tracker { message_id = 0; next_fragment_index = 0; fragment_count = 0 }
    else record tracker { next_fragment_index = next }

unfoldable pub advance_session : SessionTracker → RecvPacket → SessionTracker
advance_session session slot =
    elim (find_message_tracker session.stream_trackers slot.stream_id false) [
      | none ↦ session
      | some (j, message, _) ↦
          if message.message_id == slot.message_id
          then record session {
            stream_trackers = set session.stream_trackers j (advance_tracker message);
          }
          else session
    ]

unfoldable pub advance_trackers : List SessionTracker → RecvPacket → List SessionTracker
advance_trackers trackers slot =
    if ltb 1 slot.fragment_count
    then elim (find_session_tracker trackers slot.session_id false) [
      | none ↦ trackers
      | some (i, session, _) ↦ set trackers i (advance_session session slot)
    ]
    else trackers

unfoldable pub deliver : StreamState → ℕ → RecvPacket → StreamState
deliver state i slot =
    clear_slot (record state { session_trackers = advance_trackers state.session_trackers slot }) i

-- The first slot whose turn it is.
unfoldable pub next_deliverable : StreamState → Option (ℕ × RecvPacket)
next_deliverable state =
    find_slot (λ slot. not (is_free slot) && packet_is_deliverable state.session_trackers slot)
      state.ready_queue

-- `copy` is `copy_user_recv_data` of the adapter that has the wire version, `none` where there is
-- none or it fails. `buffer` says that the caller brings a buffer for the user's data.
unfoldable pub drain :
    (copy : ℕ → UserData → Option UserData) → Bool → StreamState → StreamState × Drained
drain copy buffer state = elim (next_deliverable state) [
  | none ↦ (state, idle)
  | some (i, slot) ↦ elim slot.user [
    | none ↦ (deliver state i slot, delivered slot)
    | some user ↦
        if buffer
        then elim (copy slot.wire_version user) [
          | none ↦ (state, refused)
          | some user' ↦ (deliver state i slot, delivered (record slot { user = some user' }))
        ]
        else (state, refused)
  ]
]

-- The rest of the table, the count, and how many slots were cleared.
unfoldable pub expire_slots : ℕ → List RecvPacket → ℕ → List RecvPacket × ℕ × ℕ
expire_slots now_ms [] count = ([], count, 0)
expire_slots now_ms (slot ∷ slots) count =
    let (rest, count', expired) =
      expire_slots now_ms slots (if is_expired slot now_ms then count - 1 else count) in
    (
      (if is_expired slot now_ms then zero_packet else slot) ∷ rest,
      count',
      if is_expired slot now_ms then expired + 1 else expired,
    )

unfoldable pub expire : StreamState → ℕ → StreamState × ℕ
expire state now_ms =
    let (queue, count, expired) = expire_slots now_ms state.ready_queue state.ready_count in
    (record state { ready_queue = queue; ready_count = count }, expired)

-- `m7mux_stream_pump`.
unfoldable pub pump : StreamState → ℕ → StreamState × ℕ
pump state now_ms = expire state now_ms

-- A call of the library's table `M7MuxStreamLib`.
pub data Call : Type 0 where
  ingests : RecvPacket → Call
  drains : Bool → Call
  expires pumps : ℕ → Call

module _ (copy : ℕ → UserData → Option UserData) where
  unfoldable pub step : StreamState → Call → StreamState
  step state (ingests packet) = (ingest state packet).0
  step state (drains buffer) = (drain copy buffer state).0
  step state (expires now_ms) = (expire state now_ms).0
  step state (pumps now_ms) = (pump state now_ms).0

  unfoldable pub run : StreamState → List Call → StreamState
  run state [] = state
  run state (c ∷ cs) = run (step state c) cs
