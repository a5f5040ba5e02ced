-- ===== src/M7mux/Stream/Exhaustion.antt =====
-- src/stdlib/protocol/udp/m7mux/stream/stream.c: no call gives a session's tracker back, so a stream
-- that has served 64 sessions takes no packet of another one.
use siglatch.Prelude.{
  ℕ, ◌≡◌, ◌∙◌, true, false, not, inl, inr, Option, none, some, List, [], ◌∷◌, set, find_slot,
  find_slot-some, find_slot-none, find_slot-set_other, get_elem?, arith, Option-cases, Bool-cases,
  ◌==◌, ltb,
}
use siglatch.M7mux.Packet.{UserData, RecvPacket}
use siglatch.M7mux.Stream.{
  SessionTracker, MessageTracker, StreamState, tracks_session, find_session_tracker,
  assign_stream_id, ingest,
}
use siglatch.M7mux.Stream.Delivery.{
  Drained, advance_session, advance_trackers, deliver, clear_slot, expire, pump, Call, ingests,
  drains, expires, pumps, step, run,
}
use siglatch.M7mux.Stream.Inv.{Drains, rests, refuses, leaves, drain-Drains}
use siglatch.M7mux.Stream.Restarts.{
  session_trackers-ingest_message, after_message, assign_stream_id-keeps,
}

-- Every tracker is taken, and none of them by the session `id`.
pub record Excludes (id : ℕ) (trackers : List SessionTracker) : Type 0 where
  pub full : find_slot (λ (t : SessionTracker). not t.active) trackers ≡ none
  pub absent : find_slot (tracks_session id) trackers ≡ none

-- A tracker that stays with its session keeps the others out.
set-Excludes :
    (id i : ℕ) (trackers : List SessionTracker) (session session' : SessionTracker)
    → get_elem? trackers i ≡ some session
    → session'.active ≡ session.active
    → session'.session_id ≡ session.session_id
    → Excludes id trackers
    → Excludes id (set trackers i session')
set-Excludes id i trackers session session' g a n x =
    let taken = find_slot-none (λ (t : SessionTracker). not t.active) trackers i session x.full g in
    let other = find_slot-none (tracks_session id) trackers i session x.absent g in
    record {
      full =
          find_slot-set_other (λ (t : SessionTracker). not t.active) trackers i session session' g
            taken (rw a taken)
          ∙ x.full;
      absent =
          find_slot-set_other (tracks_session id) trackers i session session' g other
            (rw (a, n) other)
          ∙ x.absent;
    }

after_message-Excludes :
    (id i : ℕ) (trackers : List SessionTracker) (found session : SessionTracker)
    (packet : RecvPacket) (r : Option (ℕ × MessageTracker × List MessageTracker))
    → get_elem? trackers i ≡ some found
    → session.active ≡ found.active
    → session.session_id ≡ found.session_id
    → Excludes id trackers
    → Excludes id (after_message trackers i session packet r)
after_message-Excludes id i trackers found session packet none g a n x =
    set-Excludes id i trackers found session g a n x
after_message-Excludes id i trackers found session packet (some (j, message, messages)) g a n x =
    set-Excludes id i trackers found _ g a n x

-- With every tracker taken, a session's tracker is found or there is none.
found_when_full :
    (id i : ℕ) (trackers : List SessionTracker) (session : SessionTracker)
    (trackers' : List SessionTracker)
    → find_slot (λ (t : SessionTracker). not t.active) trackers ≡ none
    → find_session_tracker trackers id true ≡ some (i, session, trackers')
    → (get_elem? trackers i ≡ some session) × (trackers' ≡ trackers)
unfolding find_session_tracker
found_when_full id i trackers session trackers' full e =
    elim (Option-cases (find_slot (tracks_session id) trackers)) [
      | inl f ↦ absurd (ground arith)
      | inr ((k, s), f) ↦ ground (arith, find_slot-some (tracks_session id) trackers k s f)
    ]

ingest-Excludes :
    (id : ℕ) (state : StreamState) (packet : RecvPacket)
    → Excludes id state.session_trackers
    → Excludes id (ingest state packet).0.session_trackers
unfolding ingest
ingest-Excludes id state packet x = elim (Bool-cases (packet.session_id == 0)) [
  | inl z ↦ rw (z, ingest) x
  | inr nz ↦
      elim (Option-cases (find_session_tracker state.session_trackers packet.session_id true)) [
        | inl e ↦ rw (nz, ingest) (rw (e, ingest) x)
        | inr ((i, session, trackers), e) ↦
            let (g, same) =
              found_when_full packet.session_id i state.session_trackers session trackers x.full
                e in
            let (session', given) = assign_stream_id session packet.stream_id in
            let (a, n, m) = assign_stream_id-keeps session packet.stream_id in
            let packet' : RecvPacket = record packet { stream_id = given } in
            rw (nz, ingest)
              (rw (e, ingest)
                (rw (session_trackers-ingest_message state trackers i session' packet', same)
                  (after_message-Excludes id i state.session_trackers session session' packet' _ g a
                    n x)))
      ]
]

advance_session-keeps :
    (session : SessionTracker) (slot : RecvPacket)
    → ((advance_session session slot).active ≡ session.active)
      × ((advance_session session slot).session_id ≡ session.session_id)
unfolding advance_session
advance_session-keeps session slot = ground arith

-- A search that opens no tracker finds one that is there.
found_unopened :
    (id i : ℕ) (trackers : List SessionTracker) (session : SessionTracker)
    (trackers' : List SessionTracker)
    → find_session_tracker trackers id false ≡ some (i, session, trackers')
    → get_elem? trackers i ≡ some session
unfolding find_session_tracker
found_unopened id i trackers session trackers' e =
    elim (Option-cases (find_slot (tracks_session id) trackers)) [
      | inl f ↦ absurd (ground arith)
      | inr ((k, s), f) ↦ ground (arith, find_slot-some (tracks_session id) trackers k s f)
    ]

advance_trackers-Excludes :
    (id : ℕ) (trackers : List SessionTracker) (slot : RecvPacket)
    → Excludes id trackers
    → Excludes id (advance_trackers trackers slot)
unfolding advance_trackers
advance_trackers-Excludes id trackers slot x = elim (Bool-cases (ltb 1 slot.fragment_count)) [
  | inr single ↦ rw (single, advance_trackers) x
  | inl many ↦ elim (Option-cases (find_session_tracker trackers slot.session_id false)) [
    | inl e ↦ rw (many, advance_trackers) (rw (e, advance_trackers) x)
    | inr ((i, session, trackers'), e) ↦
        let (a, n) = advance_session-keeps session slot in
        rw (many, advance_trackers)
          (rw (e, advance_trackers)
            (set-Excludes id i trackers session (advance_session session slot)
              (found_unopened slot.session_id i trackers session trackers' e) a n x))
  ]
]

Drains-Excludes :
    {state : StreamState} {r : StreamState × Drained} (id : ℕ)
    → Drains state r
    → Excludes id state.session_trackers
    → Excludes id r.0.session_trackers
unfolding deliver clear_slot
Drains-Excludes id (rests e) x = x
Drains-Excludes id refuses x = x
Drains-Excludes {state} id (leaves i slot user e) x =
    advance_trackers-Excludes id state.session_trackers slot x

module _ (copy : ℕ → UserData → Option UserData) (id : ℕ) where
  step-Excludes :
      (state : StreamState) (c : Call)
      → Excludes id state.session_trackers
      → Excludes id (step copy state c).session_trackers
  unfolding step pump expire
  step-Excludes state (ingests packet) x = ingest-Excludes id state packet x
  step-Excludes state (drains buffer) x = Drains-Excludes id (drain-Drains copy buffer state) x
  step-Excludes state (expires now_ms) x = x
  step-Excludes state (pumps now_ms) x = x

  run-Excludes :
      (state : StreamState) (cs : List Call)
      → Excludes id state.session_trackers
      → Excludes id (run copy state cs).session_trackers
  unfolding run
  run-Excludes state [] x = x
  run-Excludes state (c ∷ cs) x = run-Excludes (step copy state c) cs (step-Excludes state c x)

-- Once the trackers are all taken by other sessions, `ingest` turns away each packet of the session
-- `id` and leaves the state alone, whatever drains, expiries and other packets come between.
pub run-refuses_session :
    (copy : ℕ → UserData → Option UserData) (id : ℕ) (state : StreamState) (cs : List Call)
    (packet : RecvPacket)
    → Excludes id state.session_trackers
    → packet.session_id ≡ id
    → ingest (run copy state cs) packet ≡ (run copy state cs, false)
unfolding ingest find_session_tracker
run-refuses_session copy id state cs packet x e =
    let y = run-Excludes copy id state cs x in ground (arith, y.full, y.absent, e)
