-- ===== src/M7mux/Inbox.antt =====
-- src/stdlib/protocol/udp/m7mux/inbox/inbox.c: datagrams come in through the ingress, become packets,
-- get their session and wait in the stream. `normalize` and the clock are arguments.
pub mod Ran
pub mod Order
pub mod Fuel
pub mod Intake
mod Tests
use siglatch.Prelude.{
  ℕ, zero, suc, ◌+◌, Bool, true, false, ◌||◌, Option, none, some, List, [], ◌∷◌, if◌then◌else◌, ltb,
}
use siglatch.M7mux.Packet.{UserData, Control, RecvPacket}
use siglatch.M7mux.Ingress.{
  Datagram, Arrival, IngressState, Waited, Pumped, has_queued, queued_none, pump_failed,
}
use siglatch.M7mux.Ingress
use siglatch.M7mux.Session.{SessionState}
use siglatch.M7mux.Session
use siglatch.M7mux.Stream.{StreamState}
use siglatch.M7mux.Stream
use siglatch.M7mux.Stream.Delivery.{Drained}
use siglatch.M7mux.Stream.Delivery

-- The parts of `M7MuxState` that the inbox uses; `socket_fd` is that of the connection.
pub record InboxState : Type 0 where
  pub socket_fd : Option ℕ
  pub ingress : IngressState
  pub session : SessionState
  pub stream : StreamState

-- The connection stays as it is.
unfoldable pub state_reset : InboxState → InboxState
state_reset state = record state {
  ingress = Ingress.state_reset state.ingress;
  session = Session.state_init;
  stream = Stream.state_init;
}

unfoldable pub has_pending : InboxState → Bool
has_pending state = Stream.has_pending state.stream

-- What `pump` returns: 0 or 1, or the number below 0 of the ingress.
pub data Worked : Type 0 where
  worked : Bool → Worked
  wait_error : Worked

-- The times of the calls of the clock in `pump`: at its start, in each `ingest` of the session,
-- by the number of datagrams that still wait, and at its end.
pub record Clock : Type 0 where
  pub start : ℕ
  pub ingest : ℕ → ℕ
  pub finish : ℕ

module _ (normalize : Datagram → Control → Control × Option RecvPacket) where
  -- The loop of `pump` over at most `fuel` datagrams; the control goes on from one to the next, and the
  -- Boolean is false where the loop returns from the function.
  unfoldable pub pump_loop : (ℕ → ℕ) → ℕ → InboxState → Control → Bool → InboxState × Bool × Bool
  pump_loop clock zero state control did_work = (state, did_work, true)
  pump_loop clock (suc fuel) state control did_work = elim (Ingress.drain state.ingress).1 [
    | none ↦ (state, did_work, true)
    | some raw ↦
        let state = record state { ingress = (Ingress.drain state.ingress).0 } in
        let (control, normal) = normalize raw control in
        elim normal [
          | none ↦ pump_loop clock fuel state control did_work
          | some normal ↦
              let (session, anchored) =
                Session.ingest state.session control normal (clock state.ingress.queue_count) in
              let state = record state { session = session } in
              elim anchored [
                | none ↦ (state, did_work, false)
                | some normal ↦
                    let (stream, taken) = Stream.ingest state.stream normal in
                    let state = record state { stream = stream } in
                    elim taken [
                      | false ↦ (state, did_work, false)
                      | true ↦ pump_loop clock fuel state control true
                    ]
              ]
        ]
  ]

  -- `pump` from its loop on. No more datagrams are queued than the fuel.
  unfoldable pub pump_queued : Clock → InboxState → Bool → InboxState × Worked
  pump_queued clock state did_work =
      let zero_control : Control = record { stream_type = 0; session_by_client = 0 } in
      let (state, did_work, finished) =
        pump_loop clock.ingest state.ingress.queue_count state zero_control did_work in
      let (stream, expired) = Stream.Delivery.expire state.stream clock.finish in
      if finished
      then (record state { stream = stream }, worked (ltb 0 expired || did_work))
      else (state, worked did_work)

  unfoldable pub pump : Clock → Waited → List (Option Arrival) → InboxState → InboxState × Worked
  pump clock waited turns state =
      let (session, sessions) = Session.expire state.session clock.start in
      let (stream, slots) = Stream.Delivery.expire state.stream clock.start in
      let did_work = ltb 0 slots || ltb 0 sessions in
      let (ingress, rc) =
        Ingress.pump (record (state.ingress) { socket_fd = state.socket_fd }) waited turns in
      let state = record state { ingress = ingress; session = session; stream = stream } in
      elim rc [
        | pump_failed ↦ (state, wait_error)
        | has_queued ↦ pump_queued clock state true
        | queued_none ↦ pump_queued clock state did_work
      ]

unfoldable pub drain : (ℕ → UserData → Option UserData) → Bool → InboxState → InboxState × Drained
drain copy buffer state =
    let (stream, drained) = Stream.Delivery.drain copy buffer state.stream in
    (record state { stream = stream }, drained)
