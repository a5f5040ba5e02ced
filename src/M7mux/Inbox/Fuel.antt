-- ===== src/M7mux/Inbox/Fuel.antt =====
-- The loop of `pump` in src/stdlib/protocol/udp/m7mux/inbox/inbox.c ends.
use siglatch.Prelude.{
  ℕ, zero, suc, ◌+◌, ◌≤◌, ◌≡◌, refl, Bool, true, Option, none, some, Option-cases, Bool-cases, inl,
  inr, arith,
}
use siglatch.M7mux.Packet.{Control, RecvPacket}
use siglatch.M7mux.Ingress.{Datagram, IngressState, queue_pop}
use siglatch.M7mux.Ingress
use siglatch.M7mux.Session
use siglatch.M7mux.Stream
use siglatch.M7mux.Inbox.{InboxState, pump_loop}

drain-none : (state : IngressState) → state.queue_count ≡ 0 → (Ingress.drain state).1 ≡ none
unfolding Ingress.drain queue_pop
drain-none state e = ground (arith, e)

drain-count :
    (state : IngressState) (raw : Datagram)
    → (Ingress.drain state).1 ≡ some raw
    → (Ingress.drain state).0.queue_count + 1 ≡ state.queue_count
unfolding Ingress.drain queue_pop
drain-count state raw h = ground arith

-- As many rounds as datagrams are queued are enough for the loop: with any two such numbers of rounds
-- it does the same.
pub pump_loop-enough :
    (normalize : Datagram → Control → Control × Option RecvPacket) (clock : ℕ → ℕ) (fuel fuel' : ℕ)
    (state : InboxState) (control : Control) (did_work : Bool)
    → state.ingress.queue_count ≤ fuel
    → state.ingress.queue_count ≤ fuel'
    → pump_loop normalize clock fuel state control did_work
      ≡ pump_loop normalize clock fuel' state control did_work
unfolding pump_loop
pump_loop-enough normalize clock zero zero state control did_work h h' = refl
pump_loop-enough normalize clock zero (suc fuel') state control did_work h h' =
    rw (drain-none state.ingress (omega (arith, h)), pump_loop) refl
pump_loop-enough normalize clock (suc fuel) zero state control did_work h h' =
    rw (drain-none state.ingress (omega (arith, h')), pump_loop) refl
pump_loop-enough normalize clock (suc fuel) (suc fuel') state control did_work h h' =
    elim (Option-cases (Ingress.drain state.ingress).1) [
      | inl e ↦ rw (e, pump_loop) refl
      | inr (raw, e) ↦
          let left = drain-count state.ingress raw e in
          let drained = record state { ingress = (Ingress.drain state.ingress).0 } in
          let control' = (normalize raw control).0 in
          elim (Option-cases (normalize raw control).1) [
            | inl f ↦
                rw (e, pump_loop)
                  (rw (f, pump_loop)
                    (pump_loop-enough normalize clock fuel fuel' drained control' did_work
                      (omega (arith, left, h)) (omega (arith, left, h'))))
            | inr (normal, f) ↦
                let kept =
                  Session.ingest state.session control' normal
                    (clock drained.ingress.queue_count) in
                elim (Option-cases kept.1) [
                  | inl g ↦ rw (e, pump_loop) (rw (f, pump_loop) (rw (g, pump_loop) refl))
                  | inr (anchored, g) ↦
                      let next = record drained {
                        session = kept.0;
                        stream = (Stream.ingest state.stream anchored).0;
                      } in
                      elim (Bool-cases (Stream.ingest state.stream anchored).1) [
                        | inl k ↦
                            rw (e, pump_loop)
                              (rw (f, pump_loop)
                                (rw (g, pump_loop)
                                  (rw (k, pump_loop)
                                    (pump_loop-enough normalize clock fuel fuel' next control' true
                                      (omega (arith, left, h)) (omega (arith, left, h'))))))
                        | inr k ↦
                            rw (e, pump_loop)
                              (rw (f, pump_loop) (rw (g, pump_loop) (rw (k, pump_loop) refl)))
                      ]
                ]
          ]
    ]
