-- ===== src/M7mux/Inbox/Ran.antt =====
-- What `pump` of src/stdlib/protocol/udp/m7mux/inbox/inbox.c does to the stream.
use siglatch.Prelude.{
  ℕ, zero, suc, ◌<◌, ◌^◌, ◌≡◌, refl, ap, sym, subst, ◌∙◌, Bool, true, false, ◌||◌, Option, some,
  List, [], ◌∷◌, ◌++◌, All, ltb, Option-cases, Bool-cases, ◌⊎◌, inl, inr, arith, not, ◌==◌,
}
use siglatch.M7mux.Packet.{UserData, Control, RecvPacket}
use siglatch.M7mux.Ingress.{Datagram, Arrival, Waited, Pumped, has_queued, queued_none, pump_failed}
use siglatch.M7mux.Ingress
use siglatch.M7mux.Session.{
  SessionState, Registered, register, register_by_id, register_raw, open_session, ingest_as,
}
use siglatch.M7mux.Session
use siglatch.M7mux.Stream.{StreamState, state_init}
use siglatch.M7mux.Stream
use siglatch.M7mux.Stream.Delivery.{Call, ingests, drains, expires, pumps, step, run}
use siglatch.M7mux.Stream.Delivery
use siglatch.M7mux.Inbox.{InboxState, Clock, pump_loop, pump_queued, pump}

register-count :
    (state : SessionState) (client_owned : Bool) (normal : RecvPacket) (r : Registered)
    → register state client_owned normal ≡ some r
    → r.normal.fragment_count ≡ normal.fragment_count
unfolding register register_by_id register_raw open_session
register-count state true normal r h = ground arith
register-count state false normal r h = ground arith

ingest-count :
    (state : SessionState) (control : Control) (normal out : RecvPacket) (now_ms : ℕ)
    → (Session.ingest state control normal now_ms).1 ≡ some out
    → out.fragment_count ≡ normal.fragment_count
unfolding Session.ingest ingest_as Session.anchor
ingest-count state control normal out now_ms h =
    let owned = not (control.session_by_client == 0) in
    elim (Option-cases (register state owned normal)) [
      | inl e ↦ absurd (ground (arith, e, h))
      | inr (r, e) ↦ ground (arith, e, h, register-count state owned normal r e)
    ]

-- Calls of the stream that hand nothing out.
abbrev pub IsQuiet : Call → Type 0
IsQuiet (ingests packet) = packet.fragment_count < 2 ^ 32
IsQuiet (drains buffer) = ⊥
IsQuiet (expires now_ms) = Unit
IsQuiet (pumps now_ms) = Unit

module _ (copy : ℕ → UserData → Option UserData) where
  -- The stream comes from `before` to `after` by calls that hand nothing out.
  abbrev pub Ran : StreamState → StreamState → Type 0
  Ran before after = (cs : List Call) × All IsQuiet cs × (run copy before cs ≡ after)

  Ran-refl : (state : StreamState) → Ran state state
  unfolding run
  Ran-refl state = ([], tt, refl)

  Ran-call :
      (c : Call) (before after : StreamState)
      → IsQuiet c
      → Ran (step copy before c) after
      → Ran before after
  unfolding run
  Ran-call c before after quiet (cs, all, e) = (c ∷ cs, (quiet, all), e)

  run-append :
      (state : StreamState) (xs ys : List Call)
      → run copy state (xs ++ ys) ≡ run copy (run copy state xs) ys
  unfolding run
  run-append state [] ys = refl
  run-append state (x ∷ xs) ys = run-append (step copy state x) xs ys

  All-append : (xs ys : List Call) → All IsQuiet xs → All IsQuiet ys → All IsQuiet (xs ++ ys)
  All-append [] ys h k = k
  All-append (x ∷ xs) ys (h, hs) k = (h, All-append xs ys hs k)

  Ran-trans : (a b c : StreamState) → Ran a b → Ran b c → Ran a c
  Ran-trans a b c (xs, hs, e) (ys, ks, f) =
      (xs ++ ys, All-append xs ys hs ks, run-append a xs ys ∙ ap (λ s. run copy s ys) e ∙ f)

  Ran-expire :
      (state : StreamState) (now_ms : ℕ) → Ran state (Stream.Delivery.expire state now_ms).0
  unfolding step
  Ran-expire state now_ms =
      Ran-call (expires now_ms) state (Stream.Delivery.expire state now_ms).0 tt
        (Ran-refl (Stream.Delivery.expire state now_ms).0)

  Ran-ingest :
      (state : StreamState) (packet : RecvPacket)
      → packet.fragment_count < 2 ^ 32
      → Ran state (Stream.ingest state packet).0
  unfolding step
  Ran-ingest state packet small =
      Ran-call (ingests packet) state (Stream.ingest state packet).0 small
        (Ran-refl (Stream.ingest state packet).0)

-- What `normalize` makes has a `uint32_t` for the number of fragments.
abbrev pub IsNormalizer : (Datagram → Control → Control × Option RecvPacket) → Type 0
IsNormalizer normalize =
    (raw : Datagram) (control : Control) (out : RecvPacket)
    → (normalize raw control).1 ≡ some out
    → out.fragment_count < 2 ^ 32

module _ (copy : ℕ → UserData → Option UserData)
    (normalize : Datagram → Control → Control × Option RecvPacket)
    (normal_counts : IsNormalizer normalize) where
  pump_loop-Ran :
      (clock : ℕ → ℕ) (fuel : ℕ) (state : InboxState) (control : Control) (did_work : Bool)
      → Ran copy state.stream (pump_loop normalize clock fuel state control did_work).0.stream
  unfolding pump_loop
  pump_loop-Ran clock zero state control did_work = Ran-refl copy state.stream
  pump_loop-Ran clock (suc fuel) state control did_work =
      elim (Option-cases (Ingress.drain state.ingress).1) [
        | inl e ↦ rw (e, pump_loop) (Ran-refl copy state.stream)
        | inr (raw, e) ↦
            let drained = record state { ingress = (Ingress.drain state.ingress).0 } in
            let control' = (normalize raw control).0 in
            elim (Option-cases (normalize raw control).1) [
              | inl f ↦
                  rw (e, pump_loop)
                    (rw (f, pump_loop) (pump_loop-Ran clock fuel drained control' did_work))
              | inr (normal, f) ↦
                  let now = clock drained.ingress.queue_count in
                  let kept = Session.ingest state.session control' normal now in
                  elim (Option-cases kept.1) [
                    | inl g ↦
                        rw (e, pump_loop)
                          (rw (f, pump_loop) (rw (g, pump_loop) (Ran-refl copy state.stream)))
                    | inr (anchored, g) ↦
                        let small =
                          subst (λ n. n < 2 ^ 32)
                            (sym (ingest-count state.session control' normal anchored now g))
                            (normal_counts raw control normal f) in
                        let next = record drained {
                          session = kept.0;
                          stream = (Stream.ingest state.stream anchored).0;
                        } in
                        let taken = Ran-ingest copy state.stream anchored small in
                        elim (Bool-cases (Stream.ingest state.stream anchored).1) [
                          | inl k ↦
                              rw (e, pump_loop)
                                (rw (f, pump_loop)
                                  (rw (g, pump_loop)
                                    (rw (k, pump_loop)
                                      (Ran-trans copy state.stream next.stream _ taken
                                        (pump_loop-Ran clock fuel next control' true)))))
                          | inr k ↦
                              rw (e, pump_loop)
                                (rw (f, pump_loop) (rw (g, pump_loop) (rw (k, pump_loop) taken)))
                        ]
                  ]
            ]
      ]

  pump_queued-Ran :
      (clock : Clock) (state : InboxState) (did_work : Bool)
      → Ran copy state.stream (pump_queued normalize clock state did_work).0.stream
  unfolding pump_queued
  pump_queued-Ran clock state did_work =
      let zero_control : Control = record { stream_type = 0; session_by_client = 0 } in
      let fuel = state.ingress.queue_count in
      let looped = pump_loop normalize clock.ingest fuel state zero_control did_work in
      let ran = pump_loop-Ran clock.ingest fuel state zero_control did_work in
      elim (Bool-cases looped.2) [
        | inl f ↦ rw f (
            Ran-trans copy state.stream looped.0.stream _ ran
              (Ran-expire copy looped.0.stream clock.finish))
        | inr f ↦ rw f ran
      ]

  Pumped-cases : (p : Pumped) → (p ≡ has_queued) ⊎ ((p ≡ queued_none) ⊎ (p ≡ pump_failed))
  Pumped-cases has_queued = inl refl
  Pumped-cases queued_none = inr (inl refl)
  Pumped-cases pump_failed = inr (inr refl)

  pub pump-Ran :
      (clock : Clock) (waited : Waited) (turns : List (Option Arrival)) (state : InboxState)
      → Ran copy state.stream (pump normalize clock waited turns state).0.stream
  unfolding pump
  pump-Ran clock waited turns state =
      let in_ =
        Ingress.pump (record (state.ingress) { socket_fd = state.socket_fd }) waited turns in
      let session = Session.expire state.session clock.start in
      let stream = Stream.Delivery.expire state.stream clock.start in
      let next : InboxState = record state {
        ingress = in_.0;
        session = session.0;
        stream = stream.0;
      } in
      let did_work = ltb 0 stream.1 || ltb 0 session.1 in
      let expired = Ran-expire copy state.stream clock.start in
      elim (Pumped-cases in_.1) [
        | inl e ↦
            rw (e, pump)
              (Ran-trans copy state.stream next.stream _ expired (pump_queued-Ran clock next true))
        | inr (inl e) ↦
            rw (e, pump)
              (Ran-trans copy state.stream next.stream _ expired
                (pump_queued-Ran clock next did_work))
        | inr (inr e) ↦ rw (e, pump) expired
      ]
