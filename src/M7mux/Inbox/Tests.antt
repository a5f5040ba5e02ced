-- ===== src/M7mux/Inbox/Tests.antt =====
-- src/stdlib/protocol/udp/m7mux/inbox/inbox.c: the theorems at inputs.
use siglatch.Prelude.{
  ◌≡◌, refl, true, false, Option, none, some, List, [], ◌∷◌, length-replicate, contents, find_slot,
  count_if, bytes_eq, arith,
}
use siglatch.M7mux.Packet.{Control, RecvPacket, zero_packet}
use siglatch.M7mux.Ingress.{Datagram, Arrival, Waited, is_readable, zero_datagram, ingress_of}
use siglatch.M7mux.Ingress
use siglatch.M7mux.Session
use siglatch.M7mux.Stream
use siglatch.M7mux.Stream.Delivery
use siglatch.M7mux.Ingress.Fifo.{IsValid}
use siglatch.M7mux.Inbox.{InboxState, Clock, pump, pump_queued, pump_loop}
use siglatch.M7mux.Inbox.Intake.{Takes, take_in, zero_control, pump-Takes}
use siglatch.M7mux.Inbox.Fuel.{pump_loop-enough}

-- Each datagram is a packet of the first stream.
abbrev normalize : Datagram → Control → Control × Option RecvPacket
normalize raw control = (
  control,
  some (record zero_packet {
    complete = true;
    received_ms = raw.received_ms;
    stream_id = 1;
    fragment_count = 1;
    ip = raw.ip;
    client_port = raw.client_port;
    raw_bytes = raw.buffer;
  }),
)

abbrev new : InboxState
new = record {
  socket_fd = some 3;
  ingress = Ingress.state_init;
  session = Session.state_init;
  stream = Stream.state_init;
}

abbrev clock : Clock
clock = record { start = 10; ingest = λ n. 11; finish = 12 }

abbrev hello : Arrival
hello = record { buffer = 104 ∷ []; received_ms = 7; ip = 49 ∷ []; client_port = 4000 }

abbrev again : Arrival
again = record { buffer = 105 ∷ []; received_ms = 8; ip = 50 ∷ []; client_port = 4000 }

-- The third datagram's receipt fails.
abbrev turns : List (Option Arrival)
turns = some hello ∷ some again ∷ none ∷ []

new-IsValid : IsValid new.ingress
unfolding Ingress.state_init
new-IsValid = record {
  full = length-replicate 64 zero_datagram;
  head_in = omega arith;
  tail_at = omega arith;
  fits = omega arith;
}

pump-Takes_example : Takes clock (pump normalize clock is_readable turns new).0 (
    take_in normalize clock.ingest
      (Session.expire Session.state_init 10).0
      (Stream.Delivery.expire Stream.state_init 10).0
      zero_control
      (ingress_of hello ∷ ingress_of again ∷ []))
unfolding Ingress.state_init contents
pump-Takes_example = pump-Takes normalize clock new 3 turns new-IsValid refl refl

-- The two datagrams come from two addresses, so that two sessions are open and two packets wait.
pump-two :
    let after = (pump normalize clock is_readable turns new).0 in
    (after.session.session_count ≡ 2) × (after.stream.ready_count ≡ 2)
unfolding pump pump_queued pump_loop Ingress.state_init Ingress.state_reset Ingress.has_pending
    Ingress.queue_push Ingress.queue_pop Ingress.drain Ingress.pump_loop Ingress.pump
    Session.session_capacity Session.state_init Session.state_reset Session.find
    Session.find_by_client_session Session.find_raw_by_ip Session.touch Session.clear
    Session.refresh Session.refresh_raw Session.bump_next Session.assign_id Session.new_session
    Session.open_session Session.register_by_id Session.register_raw Session.register Session.anchor
    Session.ingest_as Session.ingest Session.release Session.is_stale Session.expire_sessions
    Session.expire Stream.ready_queue_capacity Stream.session_tracker_capacity
    Stream.tracker_capacity Stream.zero_session_tracker Stream.state_init Stream.state_reset
    Stream.has_pending Stream.is_expired Stream.new_session_tracker Stream.find_session_tracker
    Stream.find_message_tracker Stream.message_tracker_begin Stream.packet_is_deliverable
    Stream.assign_stream_id Stream.assign_message_id Stream.queue_slot Stream.queue_packet
    Stream.ingest_message Stream.ingest Stream.Delivery.clear_slot Stream.Delivery.advance_tracker
    Stream.Delivery.advance_session Stream.Delivery.advance_trackers Stream.Delivery.deliver
    Stream.Delivery.next_deliverable Stream.Delivery.drain Stream.Delivery.expire_slots
    Stream.Delivery.expire Stream.Delivery.pump Stream.Delivery.step Stream.Delivery.run find_slot
    count_if bytes_eq
pump-two = (refl, refl)

abbrev one_queued : InboxState
one_queued = record new {
  ingress = (Ingress.queue_push Ingress.state_init (record zero_datagram { ip = 49 ∷ [] })).0;
}

abbrev no_control : Control
no_control = record { stream_type = 0; session_by_client = 0 }

pump_loop-enough_example :
    pump_loop normalize (λ n. 11) 1 one_queued no_control false
    ≡ pump_loop normalize (λ n. 11) 5 one_queued no_control false
unfolding Ingress.queue_push Ingress.state_init
pump_loop-enough_example =
    pump_loop-enough normalize (λ n. 11) 1 5 one_queued no_control false (omega arith) (omega arith)
