-- ===== src/M7mux/Stream/Stall.antt =====
-- src/stdlib/protocol/udp/m7mux/stream/stream.c: a message whose fragments expired still holds its stream.
use siglatch.Prelude.{
  ℕ, ◌+◌, ◌%◌, ◌^◌, ◌<◌, ◌≡◌, refl, true, false, inl, inr, some, List, leb, ◌==◌, arith, Bool-cases,
}
use siglatch.M7mux.Packet.{RecvPacket}
use siglatch.M7mux.Stream.{
  StreamState, SessionTracker, MessageTracker, find_session_tracker, find_message_tracker,
  message_tracker_begin, assign_stream_id, assign_message_id, ingest, ingest_message,
}
use siglatch.M7mux.Stream.Delivery.{expire}

-- A message of several fragments is in flight, and not all of them are delivered.
pub record IsInFlight (tracker : MessageTracker) : Type 0 where
  pub taken : (tracker.message_id == 0) ≡ false
  pub unfinished : tracker.next_fragment_index < tracker.fragment_count

begin-stalled :
    (tracker : MessageTracker) (packet : RecvPacket)
    → IsInFlight tracker
    → (tracker.message_id == packet.message_id) ≡ false
    → 1 < packet.fragment_count
    → (message_tracker_begin tracker packet).1 ≡ false
unfolding message_tracker_begin
begin-stalled tracker packet f other several = ground (arith, f.taken, f.unfinished)

assign_message_id-same :
    (tracker : MessageTracker) (id : ℕ)
    → (id == 0) ≡ false
    → IsInFlight tracker
    → ((assign_message_id tracker id).1 ≡ id)
      × ((assign_message_id tracker id).0.message_id ≡ tracker.message_id)
      × IsInFlight (assign_message_id tracker id).0
unfolding assign_message_id
assign_message_id-same tracker id given f = elim (Bool-cases (leb tracker.next_message_id id)) [
  | inl e ↦ rw (given, e) (refl, refl, record { taken = f.taken; unfinished = f.unfinished })
  | inr e ↦ rw (given, e) (refl, refl, f)
]

ingest_message-stalled :
    (state : StreamState) (trackers : List SessionTracker) (i j : ℕ) (session : SessionTracker)
    (packet : RecvPacket) (message : MessageTracker) (messages : List MessageTracker)
    → (packet.message_id == 0) ≡ false
    → 1 < packet.fragment_count
    → find_message_tracker session.stream_trackers packet.stream_id true
      ≡ some (j, message, messages)
    → IsInFlight message
    → (message.message_id == packet.message_id) ≡ false
    → (ingest_message state trackers i session packet).1 ≡ false
unfolding ingest_message
ingest_message-stalled state trackers i j session packet message messages has_id several found f
      other =
    let (id, same, f') = assign_message_id-same message packet.message_id has_id f in
    let (message', message_id) = assign_message_id message packet.message_id in
    let stalled : (message_tracker_begin message' (record packet { message_id = message_id })).1
        ≡ false =
      begin-stalled message' (record packet { message_id = message_id }) f' (rw (same, id) other)
        several in
    rw (found, ingest_message) (rw stalled refl)

-- Where a message of several fragments is in flight on a stream, a fragment of any other such message
-- on that stream is refused after any expiry, even one that cleared every fragment of the first.
pub expire-stalled :
    (state : StreamState) (now_ms : ℕ) (normal : RecvPacket) (i j : ℕ) (session : SessionTracker)
    (trackers : List SessionTracker) (message : MessageTracker) (messages : List MessageTracker)
    → (normal.stream_id == 0) ≡ false
    → (normal.message_id == 0) ≡ false
    → 1 < normal.fragment_count
    → find_session_tracker state.session_trackers normal.session_id true
      ≡ some (i, session, trackers)
    → find_message_tracker session.stream_trackers normal.stream_id true
      ≡ some (j, message, messages)
    → IsInFlight message
    → (message.message_id == normal.message_id) ≡ false
    → (ingest (expire state now_ms).0 normal).1 ≡ false
unfolding expire ingest assign_stream_id
expire-stalled state now_ms normal i j session trackers message messages on_stream has_id several
      found found' f other =
    let after = (expire state now_ms).0 in
    elim (Bool-cases (normal.session_id == 0)) [
      | inl e ↦ rw e refl
      | inr e ↦
          rw (e, ingest)
            (rw (found, ingest)
              (elim (Bool-cases (leb session.next_stream_id normal.stream_id)) [
                | inl g ↦
                    rw (on_stream, g)
                      (ingest_message-stalled after trackers i j
                        (record session { next_stream_id = (normal.stream_id + 1) % 2 ^ 32 }) normal
                        message messages has_id several found' f other)
                | inr g ↦
                    rw (on_stream, g)
                      (ingest_message-stalled after trackers i j session normal message messages
                        has_id several found' f other)
              ]))
    ]
