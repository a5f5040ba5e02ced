-- ===== src/M7mux/Stream/Restarts.antt =====
-- src/stdlib/protocol/udp/m7mux/stream/stream.c: what `m7mux_stream_ingest` does to the trackers.
use siglatch.Prelude.{
  ℕ, ◌^◌, ◌<◌, ◌≡◌, refl, sym, ap, ◌∙◌, Bool, true, false, inl, inr, ◌⊎◌, Option, none, some, List,
  if◌then◌else◌, ◌==◌, ==_iff, set, find_slot, arith, Option-cases, Bool-cases,
}
use siglatch.M7mux.Packet.{RecvPacket}
use siglatch.M7mux.Stream.{
  MessageTracker, SessionTracker, StreamState, find_session_tracker, find_message_tracker,
  message_tracker_begin, assign_message_id, assign_stream_id, ingest_message, ingest, queue_packet,
  new_message_tracker, tracks_session,
}
use siglatch.M7mux.Stream.Trackers.{
  message_of, tracker_of, find_session_tracker-Found, tracker_of-set, message_of-set, FoundMessage,
  find_message_tracker-FoundMessage,
}

-- The message in flight on a stream and the fragment that it awaits; (0, 0) for a stream at rest.
abbrev pub position : Option MessageTracker → ℕ × ℕ
position none = (0, 0)
position (some message) = (message.message_id, message.next_fragment_index)

-- `fragment_count` is a `uint32_t`.
abbrev pub Fits : Option MessageTracker → Type 0
Fits none = Unit
Fits (some message) = message.fragment_count < 2 ^ 32

-- Taking a packet in leaves a stream where it was, or at the start of a message.
abbrev pub Restarts : Option MessageTracker → Option MessageTracker → Type 0
Restarts before after =
    ((position after ≡ position before) ⊎ ((position after).1 ≡ 0)) × (Fits before → Fits after)

begin-Restarts :
    (message : MessageTracker) (message_id : ℕ) (packet : RecvPacket)
    → packet.fragment_count < 2 ^ 32
    → let begun = (message_tracker_begin (assign_message_id message message_id).0 packet).0 in
      Restarts (some message) (some begun)
      × (begun.active ≡ message.active)
      × (begun.stream_id ≡ message.stream_id)
unfolding message_tracker_begin assign_message_id
begin-Restarts message message_id packet small = ground arith

session_trackers-queue_packet :
    (state : StreamState) (packet : RecvPacket)
    → (queue_packet state packet).0.session_trackers ≡ state.session_trackers
unfolding queue_packet
session_trackers-queue_packet state packet = ground arith

-- The table of sessions after `ingest_message`.
abbrev pub after_message :
    List SessionTracker
    → ℕ
    → SessionTracker
    → RecvPacket
    → Option (ℕ × MessageTracker × List MessageTracker)
    → List SessionTracker
after_message trackers i session packet none = set trackers i session
after_message trackers i session packet (some (j, message, messages)) =
    let (message', message_id) = assign_message_id message packet.message_id in
    let (begun, _) = message_tracker_begin message' (record packet { message_id = message_id }) in
    set trackers i (record session { stream_trackers = set messages j begun })

pub session_trackers-ingest_message :
    (state : StreamState) (trackers : List SessionTracker) (i : ℕ) (session : SessionTracker)
    (packet : RecvPacket)
    → (ingest_message state trackers i session packet).0.session_trackers
      ≡ after_message trackers i session packet
          (find_message_tracker session.stream_trackers packet.stream_id true)
unfolding ingest_message
session_trackers-ingest_message state trackers i session packet =
    elim (Option-cases (find_message_tracker session.stream_trackers packet.stream_id true)) [
      | inl e ↦ rw (e, ingest_message) refl
      | inr ((j, message, messages), e) ↦
          let (message', message_id) = assign_message_id message packet.message_id in
          let packet' : RecvPacket = record packet { message_id = message_id } in
          let (begun, accepted) = message_tracker_begin message' packet' in
          rw (e, ingest_message)
            (chosen accepted
              (record state {
                session_trackers =
                    set trackers i (record session { stream_trackers = set messages j begun });
              })
              packet')
    ]
  where
    chosen :
        (accepted : Bool) (state' : StreamState) (packet' : RecvPacket)
        → (if accepted then queue_packet state' packet' else (state', false)).0.session_trackers
          ≡ state'.session_trackers
    chosen true state' packet' = session_trackers-queue_packet state' packet'
    chosen false state' packet' = refl

-- A new tracker is at rest, as a stream with none is.
own-Restarts :
    (before : Option MessageTracker) (id : ℕ) (message begun : MessageTracker)
    → (before ≡ some message) ⊎ ((before ≡ none) × (message ≡ new_message_tracker id))
    → Restarts (some message) (some begun)
    → Restarts before (some begun)
own-Restarts before id message begun own r = ground arith

module _ (trackers : List SessionTracker) (i : ℕ) (found session : SessionTracker)
    (packet : RecvPacket)
    (e : find_slot (tracks_session packet.session_id) trackers ≡ some (i, found))
    (active : session.active ≡ true) (named : session.session_id ≡ packet.session_id)
    (messages_same : session.stream_trackers ≡ found.stream_trackers)
    (small : packet.fragment_count < 2 ^ 32) where
  own_session :
      (stream_id : ℕ)
      → tracker_of trackers packet.session_id stream_id
        ≡ message_of session.stream_trackers stream_id
  unfolding tracker_of
  own_session stream_id = rw (e, messages_same)

  written-Restarts :
      (sid stream_id j : ℕ) (message begun : MessageTracker) (messages : List MessageTracker)
      → FoundMessage session.stream_trackers packet.stream_id j message messages
      → begun.active ≡ true
      → begun.stream_id ≡ packet.stream_id
      → Restarts (some message) (some begun)
      → Restarts (tracker_of trackers sid stream_id) (
          tracker_of
            (set trackers i (record session { stream_trackers = set messages j begun }))
            sid
            stream_id)
  written-Restarts sid stream_id j message begun messages f a n r =
      let r' =
        own-Restarts (message_of session.stream_trackers packet.stream_id) packet.stream_id message
          begun f.own r in
      let outer =
        tracker_of-set trackers packet.session_id i found
          (record session { stream_trackers = set messages j begun }) sid stream_id e active
          named in
      let inner = message_of-set messages packet.stream_id j message begun stream_id f.here a n in
      rw outer (elim (Bool-cases (packet.session_id == sid)) [
        | inr other ↦ rw other (inl refl, λ h. h)
        | inl same ↦
            rw
              (
                same,
                ap (λ k. tracker_of trackers k stream_id)
                    (sym ((==_iff packet.session_id sid).0 same)),
                own_session stream_id,
                inner,
              )
              (elim (Bool-cases (packet.stream_id == stream_id)) [
                | inl here ↦ rw (here, sym ((==_iff packet.stream_id stream_id).0 here)) r'
                | inr there ↦ rw (there, f.same stream_id (λ q. ground arith)) (inl refl, λ h. h)
              ])
      ])

  after_message-Restarts :
      (sid stream_id : ℕ) (r : Option (ℕ × MessageTracker × List MessageTracker))
      → find_message_tracker session.stream_trackers packet.stream_id true ≡ r
      → Restarts
          (tracker_of trackers sid stream_id)
          (tracker_of (after_message trackers i session packet r) sid stream_id)
  after_message-Restarts sid stream_id none h = ground (
    arith,
    tracker_of-set trackers packet.session_id i found session sid stream_id e active named,
    own_session stream_id,
  )
  after_message-Restarts sid stream_id (some (j, message, messages)) h =
      let f =
        find_message_tracker-FoundMessage session.stream_trackers packet.stream_id j true message
          messages h in
      let (r, a, n) =
        begin-Restarts message packet.message_id
          (record packet { message_id = (assign_message_id message packet.message_id).1 }) small in
      written-Restarts sid stream_id j message _ messages f (a ∙ f.active) (n ∙ f.named) r

-- The stream's counter of ids is all that `assign_stream_id` touches.
pub assign_stream_id-keeps :
    (session : SessionTracker) (id : ℕ)
    → let session' = (assign_stream_id session id).0 in
      (session'.active ≡ session.active)
      × (session'.session_id ≡ session.session_id)
      × (session'.stream_trackers ≡ session.stream_trackers)
unfolding assign_stream_id
assign_stream_id-keeps session id = ground arith

pub ingest-Restarts :
    (state : StreamState) (packet : RecvPacket)
    → packet.fragment_count < 2 ^ 32
    → (sid stream_id : ℕ)
    → Restarts
        (tracker_of state.session_trackers sid stream_id)
        (tracker_of (ingest state packet).0.session_trackers sid stream_id)
unfolding ingest
ingest-Restarts state packet small sid stream_id = elim (Bool-cases (packet.session_id == 0)) [
  | inl z ↦ rw (z, ingest) (inl refl, λ h. h)
  | inr nz ↦
      elim (Option-cases (find_session_tracker state.session_trackers packet.session_id true)) [
        | inl e ↦ rw (nz, ingest) (rw (e, ingest) (inl refl, λ h. h))
        | inr ((i, session, trackers), e) ↦
            let f =
              find_session_tracker-Found state.session_trackers packet.session_id i true session
                trackers e in
            let (session', id) = assign_stream_id session packet.stream_id in
            let (a, n, m) = assign_stream_id-keeps session packet.stream_id in
            let packet' : RecvPacket = record packet { stream_id = id } in
            rw (nz, ingest)
              (rw (e, ingest)
                (rw
                  (
                    session_trackers-ingest_message state trackers i session' packet',
                    ← (f.same sid stream_id),
                  )
                  (after_message-Restarts trackers i session session' packet' f.here (a ∙ f.active)
                    (n ∙ f.named) m small sid stream_id _ refl)))
      ]
]
