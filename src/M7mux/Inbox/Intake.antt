-- ===== src/M7mux/Inbox/Intake.antt =====
-- What a call of `pump` in src/stdlib/protocol/udp/m7mux/inbox/inbox.c does with the datagrams that have
-- come in.
use siglatch.Prelude.{
  ℕ, ◌≡◌, refl, sym, subst, ◌∙◌, ap, Bool, true, false, ◌||◌, Option, none, some, List, [], ◌∷◌,
  if◌then◌else◌, ltb, length, take, length-contents, Option-cases, Bool-cases, inl, inr,
}
use siglatch.M7mux.Packet.{Control, RecvPacket}
use siglatch.M7mux.Ingress.{
  Datagram, Arrival, IngressState, is_readable, zero_datagram, has_queued, queued_none, pump_failed,
  pumped_of,
}
use siglatch.M7mux.Ingress
use siglatch.M7mux.Ingress.Fifo.{waiting, IsValid, received, drain-front, pump-waiting}
use siglatch.M7mux.Session.{SessionState}
use siglatch.M7mux.Session
use siglatch.M7mux.Stream.{StreamState}
use siglatch.M7mux.Stream
use siglatch.M7mux.Stream.Delivery
use siglatch.M7mux.Inbox.{InboxState, Clock, pump_loop, pump_queued, pump}

-- What becomes of the datagrams that wait: those that are left, the sessions and the stream, and whether
-- none was turned away.
pub record Intake : Type 0 where
  pub left : List Datagram
  pub session : SessionState
  pub stream : StreamState
  pub finished : Bool

module _ (normalize : Datagram → Control → Control × Option RecvPacket) (clock : ℕ → ℕ) where
  -- Each datagram in turn: where it gives a packet, the packet gets its session and then its place in the
  -- stream, and the first that the sessions or the stream turn away ends it. The clock is asked with the
  -- number of datagrams behind it.
  pub take_in : SessionState → StreamState → Control → List Datagram → Intake
  take_in session stream control [] = record {
    left = [];
    session = session;
    stream = stream;
    finished = true;
  }
  take_in session stream control (raw ∷ rest) = elim (normalize raw control).1 [
    | none ↦ take_in session stream (normalize raw control).0 rest
    | some normal ↦
        let (session', kept) =
          Session.ingest session (normalize raw control).0 normal (clock (length rest)) in
        elim kept [
          | none ↦ record { left = rest; session = session'; stream = stream; finished = false }
          | some anchored ↦
              let (stream', taken) = Stream.ingest stream anchored in
              if taken
              then take_in session' stream' (normalize raw control).0 rest
              else record { left = rest; session = session'; stream = stream'; finished = false }
        ]
  ]

  -- The inbox is as the intake says.
  pub record Matches (state : InboxState) (finished : Bool) (intake : Intake) : Type 0 where
    pub left : waiting state.ingress ≡ intake.left
    pub session : state.session ≡ intake.session
    pub stream : state.stream ≡ intake.stream
    pub is_finished : finished ≡ intake.finished
    pub valid : IsValid state.ingress

  pump_loop-Matches :
      (ds : List Datagram) (state : InboxState) (control : Control) (did_work : Bool)
      → IsValid state.ingress
      → waiting state.ingress ≡ ds
      → Matches
          (pump_loop normalize clock (length ds) state control did_work).0
          (pump_loop normalize clock (length ds) state control did_work).2
          (take_in state.session state.stream control ds)
  unfolding pump_loop take_in
  pump_loop-Matches [] state control did_work v w = record {
    left = w;
    session = refl;
    stream = refl;
    is_finished = refl;
    valid = v;
  }
  pump_loop-Matches (raw ∷ rest) state control did_work v w = elim (drain-front state.ingress v) [
    | inl (same, empty) ↦ absurd (cc)
    | inr (d, e, front, v') ↦
        let drained = record state { ingress = (Ingress.drain state.ingress).0 } in
        let first : (Ingress.drain state.ingress).1 ≡ some raw = cc in
        let w' : waiting drained.ingress ≡ rest = cc in
        let count : drained.ingress.queue_count ≡ length rest =
          sym (
            length-contents zero_datagram drained.ingress.queue drained.ingress.queue_head
              drained.ingress.queue_count)
          ∙ ap length w' in
        let control' = (normalize raw control).0 in
        elim (Option-cases (normalize raw control).1) [
          | inl f ↦
              rw (first, pump_loop)
                (rw (f, pump_loop, take_in)
                  (pump_loop-Matches rest drained control' did_work v' w'))
          | inr (normal, f) ↦
              let at : ℕ → SessionState × Option RecvPacket =
                λ n. Session.ingest state.session control' normal (clock n) in
              let now = drained.ingress.queue_count in
              let same_session = ap (λ n. (at n).0) count in
              elim (Option-cases (at now).1) [
                | inl g ↦
                    let g' = subst (λ n. (at n).1 ≡ none) count g in
                    rw (first, pump_loop)
                      (rw (f, pump_loop, take_in)
                        (rw (g, pump_loop)
                          (rw (g', take_in)
                            (record {
                              left = w';
                              session = same_session;
                              stream = refl;
                              is_finished = refl;
                              valid = v';
                            }))))
                | inr (anchored, g) ↦
                    let g' = subst (λ n. (at n).1 ≡ some anchored) count g in
                    let stream' = (Stream.ingest state.stream anchored).0 in
                    let next : InboxState = record drained {
                      session = (at now).0;
                      stream = stream';
                    } in
                    elim (Bool-cases (Stream.ingest state.stream anchored).1) [
                      | inl k ↦
                          let going = pump_loop-Matches rest next control' true v' w' in
                          rw (first, pump_loop)
                            (rw (f, pump_loop, take_in)
                              (rw (g, pump_loop)
                                (rw (g', take_in)
                                  (rw (k, pump_loop, take_in)
                                    (subst
                                      (λ (s : SessionState).
                                        Matches
                                          (pump_loop normalize clock (length rest) next control'
                                            true).0
                                          (pump_loop normalize clock (length rest) next control'
                                            true).2
                                          (take_in s stream' control' rest))
                                      same_session going)))))
                      | inr k ↦
                          rw (first, pump_loop)
                            (rw (f, pump_loop, take_in)
                              (rw (g, pump_loop)
                                (rw (g', take_in)
                                  (rw (k, pump_loop, take_in)
                                    (record {
                                      left = w';
                                      session = same_session;
                                      stream = refl;
                                      is_finished = refl;
                                      valid = v';
                                    })))))
                    ]
              ]
        ]
  ]

abbrev pub zero_control : Control
zero_control = record { stream_type = 0; session_by_client = 0 }

-- What an inbox is like once the datagrams of an intake are through; the slots of the stream are looked
-- through once more where none was turned away.
pub record Takes (clock : Clock) (after : InboxState) (intake : Intake) : Type 0 where
  pub left : waiting after.ingress ≡ intake.left
  pub session : after.session ≡ intake.session
  pub stream : after.stream ≡ (
      if intake.finished
      then (Stream.Delivery.expire intake.stream clock.finish).0
      else intake.stream)
  pub valid : IsValid after.ingress

module _ (normalize : Datagram → Control → Control × Option RecvPacket) (clock : Clock) where
  pump_queued-Takes :
      (ds : List Datagram) (state : InboxState) (did_work : Bool)
      → IsValid state.ingress
      → waiting state.ingress ≡ ds
      → Takes clock
          (pump_queued normalize clock state did_work).0
          (take_in normalize clock.ingest state.session state.stream zero_control ds)
  unfolding pump_queued
  pump_queued-Takes ds state did_work v w =
      let count : state.ingress.queue_count ≡ length ds =
        sym (
          length-contents zero_datagram state.ingress.queue state.ingress.queue_head
            state.ingress.queue_count)
        ∙ ap length w in
      let intake = take_in normalize clock.ingest state.session state.stream zero_control ds in
      let looped : ℕ → InboxState × Bool × Bool =
        λ n. pump_loop normalize clock.ingest n state zero_control did_work in
      let fuel = state.ingress.queue_count in
      let m =
        subst (λ n. Matches normalize clock.ingest (looped n).0 (looped n).2 intake) (sym count)
          (pump_loop-Matches normalize clock.ingest ds state zero_control did_work v w) in
      elim (Bool-cases (looped fuel).2) [
        | inl f ↦
            let finished : intake.finished ≡ true = sym m.is_finished ∙ f in
            rw (f, pump_queued)
              (record {
                left = m.left;
                session = m.session;
                stream = rw finished (ap (λ s. (Stream.Delivery.expire s clock.finish).0) m.stream);
                valid = m.valid;
              })
        | inr f ↦
            let stopped : intake.finished ≡ false = sym m.is_finished ∙ f in
            rw (f, pump_queued)
              (record {
                left = m.left;
                session = m.session;
                stream = rw stopped m.stream;
                valid = m.valid;
              })
      ]

  -- A call of `pump` with a readable socket and an empty ingress queue looks through the sessions and the
  -- stream for what has expired, and then takes in the datagrams that arrive before the first failure, up
  -- to 64: each in its order and none twice, normalized under the control that the one before left, given
  -- its session, and put into the stream. One that gives no packet is passed over; the first that the
  -- sessions or the stream turn away ends the call, and those behind it stay in the ingress queue. Where
  -- none is turned away the stream is looked through once more.
  pub pump-Takes :
      (state : InboxState) (fd : ℕ) (turns : List (Option Arrival))
      → IsValid state.ingress
      → state.socket_fd ≡ some fd
      → waiting state.ingress ≡ []
      → Takes clock (pump normalize clock is_readable turns state).0 (
          take_in normalize clock.ingest
            (Session.expire state.session clock.start).0
            (Stream.Delivery.expire state.stream clock.start).0
            zero_control
            (take 64 (received turns)))
  unfolding pump
  pump-Takes state fd turns v opened empty =
      let readied = record (state.ingress) { socket_fd = state.socket_fd } in
      let in_ = Ingress.pump readied is_readable turns in
      let (order, answer, valid) = pump-waiting readied fd turns v opened empty in
      let session = Session.expire state.session clock.start in
      let stream = Stream.Delivery.expire state.stream clock.start in
      let next : InboxState = record state {
        ingress = in_.0;
        session = session.0;
        stream = stream.0;
      } in
      let arrived = take 64 (received turns) in
      elim (Bool-cases (ltb 0 (length arrived))) [
        | inl e ↦
            let some_in : in_.1 ≡ has_queued = answer ∙ ap pumped_of e in
            rw (some_in, pump) (pump_queued-Takes arrived next true valid order)
        | inr e ↦
            let none_in : in_.1 ≡ queued_none = answer ∙ ap pumped_of e in
            rw (none_in, pump)
              (pump_queued-Takes arrived next (ltb 0 stream.1 || ltb 0 session.1) valid order)
      ]
