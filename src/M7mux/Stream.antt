-- ===== src/M7mux/Stream.antt =====
-- src/stdlib/protocol/udp/m7mux/stream/stream.c: fragments wait in a table of slots until their turn.
-- A pointer into a table is the index with what stands there. Buffers are values, so freeing one
-- (`m7mux_stream_release_user`) leaves no trace here.
pub mod Delivery
pub mod Inv
pub mod Trackers
pub mod Restarts
pub mod Order
pub mod Expiry
pub mod Exhaustion
pub mod Stall
mod Tests
use siglatch.Prelude.{
  ℕ, ◌+◌, ◌-◌, ◌%◌, ◌^◌, Bool, true, false, ◌&&◌, ◌||◌, not, Option, none, some, List,
  if◌then◌else◌, ltb, leb, ◌==◌, set, replicate, find_slot,
}
use siglatch.M7mux.Packet.{RecvPacket, zero_packet}

-- `M7MuxStreamMessageTracker`.
pub record MessageTracker : Type 0 where
  pub stream_id : ℕ
  pub next_message_id : ℕ
  pub message_id : ℕ
  pub next_fragment_index : ℕ
  pub fragment_count : ℕ
  pub active : Bool

-- `M7MuxStreamSessionTracker`.
pub record SessionTracker : Type 0 where
  pub session_id : ℕ
  pub next_stream_id : ℕ
  pub active : Bool
  pub stream_trackers : List MessageTracker

-- `M7MuxStreamState`, but for `adapter_lib`, whose copying function is an argument of `drain`.
pub record StreamState : Type 0 where
  pub ready_queue : List RecvPacket
  pub ready_count : ℕ
  pub session_trackers : List SessionTracker

unfoldable pub ready_queue_capacity : ℕ
ready_queue_capacity = 64

unfoldable pub session_tracker_capacity : ℕ
session_tracker_capacity = 64

unfoldable pub tracker_capacity : ℕ
tracker_capacity = 64

abbrev pub expire_after_ms : ℕ
expire_after_ms = 30000

abbrev pub zero_message_tracker : MessageTracker
zero_message_tracker = record {
  stream_id = 0;
  next_message_id = 0;
  message_id = 0;
  next_fragment_index = 0;
  fragment_count = 0;
  active = false;
}

unfoldable pub zero_session_tracker : SessionTracker
zero_session_tracker = record {
  session_id = 0;
  next_stream_id = 0;
  active = false;
  stream_trackers = replicate tracker_capacity zero_message_tracker;
}

unfoldable pub state_init : StreamState
state_init = record {
  ready_queue = replicate ready_queue_capacity zero_packet;
  ready_count = 0;
  session_trackers = replicate session_tracker_capacity zero_session_tracker;
}

-- The queued buffers are freed and every field but `adapter_lib` is cleared.
unfoldable pub state_reset : StreamState → StreamState
state_reset state = state_init

unfoldable pub has_pending : StreamState → Bool
has_pending state = ltb 0 state.ready_count

unfoldable pub is_expired : RecvPacket → ℕ → Bool
is_expired slot now_ms =
    if slot.session_id == 0
    then false
    else if slot.received_ms == 0
    then true
    else if ltb now_ms slot.received_ms
    then false
    else leb expire_after_ms (now_ms - slot.received_ms)

unfoldable pub new_session_tracker : ℕ → SessionTracker
new_session_tracker session_id = record {
  session_id = session_id;
  next_stream_id = 1;
  active = true;
  stream_trackers = replicate tracker_capacity zero_message_tracker;
}

abbrev pub new_message_tracker : ℕ → MessageTracker
new_message_tracker stream_id = record {
  stream_id = stream_id;
  next_message_id = 1;
  message_id = 0;
  next_fragment_index = 0;
  fragment_count = 0;
  active = true;
}

abbrev pub tracks_session : ℕ → SessionTracker → Bool
tracks_session session_id tracker = tracker.active && tracker.session_id == session_id

abbrev pub tracks_stream : ℕ → MessageTracker → Bool
tracks_stream stream_id tracker = tracker.active && tracker.stream_id == stream_id

-- The slot, what it holds, and the table with it. A slot that has the id wins over every free one.
unfoldable pub find_session_tracker :
    List SessionTracker → ℕ → Bool → Option (ℕ × SessionTracker × List SessionTracker)
find_session_tracker trackers session_id create =
    if session_id == 0 then none else elim (find_slot (tracks_session session_id) trackers) [
      | some (i, tracker) ↦ some (i, tracker, trackers)
      | none ↦
          if create
          then elim (find_slot (λ (t : SessionTracker). not t.active) trackers) [
            | none ↦ none
            | some (i, free) ↦
                some (
                  i,
                  new_session_tracker session_id,
                  set trackers i (new_session_tracker session_id),
                )
          ]
          else none
    ]

unfoldable pub find_message_tracker :
    List MessageTracker → ℕ → Bool → Option (ℕ × MessageTracker × List MessageTracker)
find_message_tracker trackers stream_id create =
    if stream_id == 0 then none else elim (find_slot (tracks_stream stream_id) trackers) [
      | some (i, tracker) ↦ some (i, tracker, trackers)
      | none ↦
          if create
          then elim (find_slot (λ (t : MessageTracker). not t.active) trackers) [
            | none ↦ none
            | some (i, free) ↦
                some
                  (i, new_message_tracker stream_id, set trackers i (new_message_tracker stream_id))
          ]
          else none
    ]

-- A tracker takes up a message of several fragments; `false` while another one is in flight.
unfoldable pub message_tracker_begin : MessageTracker → RecvPacket → MessageTracker × Bool
message_tracker_begin tracker packet =
    if packet.message_id == 0
    then (tracker, false)
    else let count = if packet.fragment_count == 0 then 1 else packet.fragment_count in
      let begun : MessageTracker = record tracker {
        message_id = packet.message_id;
        next_fragment_index = 0;
        fragment_count = count;
      } in
      if leb count 1
      then (tracker, true)
      else if tracker.message_id == 0
      then (begun, true)
      else if tracker.message_id == packet.message_id
      then (if tracker.fragment_count == 0
          then (record tracker { fragment_count = count }, true)
          else (tracker, true))
      else if leb tracker.fragment_count tracker.next_fragment_index
      then (begun, true)
      else (tracker, false)

unfoldable pub packet_is_deliverable : List SessionTracker → RecvPacket → Bool
packet_is_deliverable trackers packet =
    if packet.session_id == 0 || packet.stream_id == 0
    then false
    else elim (find_session_tracker trackers packet.session_id false) [
      | none ↦ false
      | some (i, session, _) ↦
          if packet.fragment_count == 0 || packet.fragment_count == 1
          then packet.fragment_index == 0
          else elim (find_message_tracker session.stream_trackers packet.stream_id false) [
            | none ↦ false
            | some (j, message, _) ↦
                if message.message_id == 0
                then false
                else if packet.message_id == message.message_id
                then packet.fragment_index == message.next_fragment_index
                else false
          ]
    ]

-- The stream id of a packet, given or assigned, and the session's counter after it.
unfoldable pub assign_stream_id : SessionTracker → ℕ → SessionTracker × ℕ
assign_stream_id session stream_id =
    let assigned = session.next_stream_id in
    let next = (assigned + 1) % 2 ^ 32 in
    if stream_id == 0
    then (
      record session {
        next_stream_id = if leb next assigned then (assigned + 1) % 2 ^ 32 else next;
      },
      assigned,
    )
    else if leb session.next_stream_id stream_id
    then (record session { next_stream_id = (stream_id + 1) % 2 ^ 32 }, stream_id)
    else (session, stream_id)

-- The message id of a packet, given or assigned, and the stream's counter after it.
unfoldable pub assign_message_id : MessageTracker → ℕ → MessageTracker × ℕ
assign_message_id tracker message_id =
    let assigned = tracker.next_message_id in
    let next = (assigned + 1) % 2 ^ 64 in
    if message_id == 0
    then (
      record tracker {
        next_message_id = if leb next assigned then (assigned + 1) % 2 ^ 64 else next;
      },
      assigned,
    )
    else if leb tracker.next_message_id message_id
    then (record tracker { next_message_id = (message_id + 1) % 2 ^ 64 }, message_id)
    else (tracker, message_id)

abbrev pub same_fragment : RecvPacket → RecvPacket → Bool
same_fragment p q =
    p.session_id == q.session_id
    && p.stream_id == q.stream_id
    && p.message_id == q.message_id
    && p.fragment_index == q.fragment_index

abbrev pub is_free : RecvPacket → Bool
is_free slot = slot.session_id == 0

abbrev pub is_final_fragment : RecvPacket → Bool
is_final_fragment packet =
    if packet.fragment_count == 0
    then true
    else leb packet.fragment_count ((packet.fragment_index + 1) % 2 ^ 32)

-- The slot for a packet: the one that holds its fragment already, else the first free one.
unfoldable pub queue_slot : List RecvPacket → RecvPacket → Option (ℕ × RecvPacket)
queue_slot queue packet = elim (find_slot (λ slot. same_fragment slot packet) queue) [
  | some s ↦ some s
  | none ↦ find_slot is_free queue
]

-- The last part of `m7mux_stream_ingest`: a fragment that is queued already is a collision.
unfoldable pub queue_packet : StreamState → RecvPacket → StreamState × Bool
queue_packet state packet = elim (queue_slot state.ready_queue packet) [
  | none ↦ (state, false)
  | some (i, slot) ↦
      if is_free slot
      then (
        record state {
          ready_queue =
              set state.ready_queue i (record packet { complete = is_final_fragment packet });
          ready_count = (state.ready_count + 1) % 2 ^ 64;
        },
        true,
      )
      else (state, false)
]

-- `m7mux_stream_ingest` from the stream's tracker on: `i` is the session's slot.
unfoldable pub ingest_message :
    StreamState → List SessionTracker → ℕ → SessionTracker → RecvPacket → StreamState × Bool
ingest_message state trackers i session packet =
    elim (find_message_tracker session.stream_trackers packet.stream_id true) [
      | none ↦ (record state { session_trackers = set trackers i session }, false)
      | some (j, message, messages) ↦
          let (message', message_id) = assign_message_id message packet.message_id in
          let packet' : RecvPacket = record packet { message_id = message_id } in
          let (begun, accepted) = message_tracker_begin message' packet' in
          let session' : SessionTracker = record session {
            stream_trackers = set messages j begun;
          } in
          let state' : StreamState = record state { session_trackers = set trackers i session' } in
          if accepted then queue_packet state' packet' else (state', false)
    ]

unfoldable pub ingest : StreamState → RecvPacket → StreamState × Bool
ingest state normal =
    if normal.session_id == 0
    then (state, false)
    else elim (find_session_tracker state.session_trackers normal.session_id true) [
      | none ↦ (state, false)
      | some (i, session, trackers) ↦
          let (session', stream_id) = assign_stream_id session normal.stream_id in
          ingest_message state trackers i session' (record normal { stream_id = stream_id })
    ]
