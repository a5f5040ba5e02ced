-- ===== src/M7mux/Stream/Tests.antt =====
-- src/stdlib/protocol/udp/m7mux/stream/stream.c: runs of the stream, and its theorems at inputs.
use siglatch.Prelude.{
  get_or, ℕ, zero, suc, ◌≡◌, refl, false, true, Option, none, some, List, [], ◌∷◌, ◌++◌, arith,
  find_slot, map,
}
use siglatch.M7mux.Packet.{UserData, RecvPacket, zero_packet}
use siglatch.M7mux.Stream.{
  SessionTracker, MessageTracker, zero_message_tracker, StreamState, state_init, ingest,
  ready_queue_capacity, session_tracker_capacity, tracker_capacity, zero_session_tracker,
  new_session_tracker, find_session_tracker, find_message_tracker, assign_stream_id,
  assign_message_id, message_tracker_begin, queue_packet, queue_slot, ingest_message,
  packet_is_deliverable,
}
use siglatch.M7mux.Stream.Delivery.{
  drain, expire, Call, ingests, drains, expires, step, run, next_deliverable, deliver, clear_slot,
  advance_trackers, advance_session, advance_tracker,
}
use siglatch.M7mux.Stream.Inv.{IsCounted, run-state_init-IsCounted}
use siglatch.M7mux.Stream.Order.{InOrder, emitted, deliveries, deliveries-state_init-InOrder}
use siglatch.M7mux.Stream.Stall.{IsInFlight, expire-stalled}
use siglatch.M7mux.Stream.Exhaustion.{Excludes, run-refuses_session}

abbrev no_copy : ℕ → UserData → Option UserData
no_copy version user = some user

-- Fragment `index` of two of message 4 on stream 1 of session 5.
abbrev fragment : ℕ → RecvPacket
fragment index = record zero_packet {
  session_id = 5;
  message_id = 4;
  stream_id = 1;
  fragment_index = index;
  fragment_count = 2;
  received_ms = 100;
}

abbrev swapped : List Call
swapped = ingests (fragment 1) ∷ drains true ∷ ingests (fragment 0) ∷ drains true ∷ drains true ∷ []

abbrev sent : ℕ → RecvPacket
sent session_id = record zero_packet { session_id = session_id; received_ms = 100 }

-- The second fragment waits for the first.
deliveries-swapped :
    map (λ (p : RecvPacket). p.fragment_index) (deliveries no_copy state_init swapped) ≡ 0 ∷ 1 ∷ []
unfolding deliveries emitted step run ingest drain expire next_deliverable deliver clear_slot
    advance_trackers advance_session advance_tracker state_init ready_queue_capacity
    session_tracker_capacity tracker_capacity zero_session_tracker new_session_tracker
    find_session_tracker find_message_tracker assign_stream_id assign_message_id
    message_tracker_begin queue_packet queue_slot ingest_message packet_is_deliverable find_slot
deliveries-swapped = refl

deliveries-state_init-InOrder_example : InOrder 5 1 none (deliveries no_copy state_init swapped)
deliveries-state_init-InOrder_example =
    deliveries-state_init-InOrder no_copy 5 1 swapped (omega arith)

run-state_init-IsCounted_example : IsCounted (run no_copy state_init swapped)
run-state_init-IsCounted_example = run-state_init-IsCounted no_copy swapped

-- Packets of the sessions 1 to n.
sessions : ℕ → List Call
sessions zero = []
sessions (suc n) = sessions n ++ (ingests (sent (suc n)) ∷ [])

-- 64 sessions send a packet each.
busy : StreamState
busy = run no_copy state_init (sessions 64)

busy-Excludes : Excludes 65 busy.session_trackers
unfolding busy sessions step run ingest state_init ready_queue_capacity session_tracker_capacity
    tracker_capacity zero_session_tracker new_session_tracker find_session_tracker
    find_message_tracker assign_stream_id assign_message_id message_tracker_begin queue_packet
    queue_slot ingest_message find_slot
busy-Excludes = record { full = refl; absent = refl }

-- All packets come out and all slots expire, and still session 65 is turned away.
run-refuses_session_example :
    ingest (run no_copy busy (drains true ∷ expires 90000 ∷ [])) (sent 65)
    ≡ (run no_copy busy (drains true ∷ expires 90000 ∷ []), false)
run-refuses_session_example =
    run-refuses_session no_copy 65 busy (drains true ∷ expires 90000 ∷ []) (sent 65) busy-Excludes
      refl

-- The second of two fragments of message 4 is in.
held : StreamState
held = run no_copy state_init (ingests (fragment 1) ∷ [])

held_session : SessionTracker
held_session = get_or held.session_trackers 0 zero_session_tracker

held_message : MessageTracker
held_message = get_or held_session.stream_trackers 0 zero_message_tracker

held-found :
    find_session_tracker held.session_trackers 5 true
    ≡ some (0, held_session, held.session_trackers)
unfolding held held_session step run ingest state_init ready_queue_capacity session_tracker_capacity
    tracker_capacity zero_session_tracker new_session_tracker find_session_tracker
    find_message_tracker assign_stream_id assign_message_id message_tracker_begin queue_packet
    queue_slot ingest_message find_slot
held-found = refl

held_session-found :
    find_message_tracker held_session.stream_trackers 1 true
    ≡ some (0, held_message, held_session.stream_trackers)
unfolding held held_session held_message step run ingest state_init ready_queue_capacity
    session_tracker_capacity tracker_capacity zero_session_tracker new_session_tracker
    find_session_tracker find_message_tracker assign_stream_id assign_message_id
    message_tracker_begin queue_packet queue_slot ingest_message find_slot
held_session-found = refl

held_message-IsInFlight : IsInFlight held_message
unfolding held held_session held_message step run ingest state_init ready_queue_capacity
    session_tracker_capacity tracker_capacity zero_session_tracker new_session_tracker
    find_session_tracker find_message_tracker assign_stream_id assign_message_id
    message_tracker_begin queue_packet queue_slot ingest_message find_slot
held_message-IsInFlight = record { taken = refl; unfinished = omega arith }

-- Message 5 is refused when message 4 is long gone.
expire-stalled_example :
    (ingest (expire held 90000).0 (record (fragment 0) { message_id = 5 })).1 ≡ false
unfolding held held_session held_message step run ingest state_init ready_queue_capacity
    session_tracker_capacity tracker_capacity zero_session_tracker new_session_tracker
    find_session_tracker find_message_tracker assign_stream_id assign_message_id
    message_tracker_begin queue_packet queue_slot ingest_message find_slot
expire-stalled_example =
    expire-stalled held 90000 (record (fragment 0) { message_id = 5 }) 0 0 held_session
      held.session_trackers held_message held_session.stream_trackers refl refl (omega arith)
      held-found held_session-found held_message-IsInFlight refl
