-- ===== src/M7mux/Stream/Order.antt =====
-- src/stdlib/protocol/udp/m7mux/stream/stream.c: the fragments of a stream come out in order.
use siglatch.Prelude.{
  ℕ, ◌+◌, ◌-◌, ◌^◌, ◌<◌, ◌≡◌, ◌≢◌, refl, sym, ap, subst, Bool, true, false, ◌&&◌, inl, inr, ◌⊎◌,
  Option, none, some, List, [], ◌∷◌, ◌++◌, if◌then◌else◌, ltb, ltb→lt, ◌==◌, ==_iff, set, find_slot,
  find_slot-some, arith, Option-cases, Bool-cases, All,
}
use siglatch.M7mux.Packet.{UserData, RecvPacket}
use siglatch.M7mux.Stream.{
  MessageTracker, SessionTracker, StreamState, packet_is_deliverable, find_session_tracker,
  find_message_tracker, ingest, state_init, zero_session_tracker, session_tracker_capacity,
  tracks_stream, tracks_session,
}
use siglatch.M7mux.Stream.Delivery.{
  Drained, idle, refused, delivered, advance_tracker, advance_session, advance_trackers, clear_slot,
  deliver, drain, expire, pump, Call, ingests, drains, expires, pumps, step,
}
use siglatch.M7mux.Stream.Inv.{Drains, rests, refuses, leaves, drain-Drains, next_deliverable-some}
use siglatch.M7mux.Stream.Trackers.{message_of, tracker_of, tracker_of-set, message_of-set}
use siglatch.M7mux.Stream.Restarts.{position, Fits, Restarts, ingest-Restarts}

-- Whether a packet is a fragment, of several, of the stream.
abbrev pub belongs : ℕ → ℕ → RecvPacket → Bool
belongs sid stream_id packet =
    ltb 1 packet.fragment_count && packet.session_id == sid && packet.stream_id == stream_id

-- A fragment's turn has come when its stream awaits it.
deliverable-awaited :
    (trackers : List SessionTracker) (slot : RecvPacket)
    → packet_is_deliverable trackers slot ≡ true
    → 1 < slot.fragment_count
    → (i : ℕ) × (session : SessionTracker) × (j : ℕ) × (message : MessageTracker) × (find_slot
          (tracks_session slot.session_id)
          trackers
        ≡ some (i, session))
      × (find_slot (tracks_stream slot.stream_id) session.stream_trackers ≡ some (j, message))
      × (message.message_id ≡ slot.message_id)
      × (slot.fragment_index ≡ message.next_fragment_index)
unfolding packet_is_deliverable find_session_tracker find_message_tracker
deliverable-awaited trackers slot d many =
    elim (Option-cases (find_slot (tracks_session slot.session_id) trackers)) [
      | inl e ↦ absurd (ground arith)
      | inr ((i, session), e) ↦
          elim (Option-cases (find_slot (tracks_stream slot.stream_id) session.stream_trackers)) [
            | inl f ↦ absurd (ground arith)
            | inr ((j, message), f) ↦ (i, session, j, message, e, f, ground arith, ground arith)
          ]
    ]

own_session :
    (trackers : List SessionTracker) (slot : RecvPacket) (i : ℕ) (session : SessionTracker)
    → find_slot (tracks_session slot.session_id) trackers ≡ some (i, session)
    → (stream_id : ℕ)
    → tracker_of trackers slot.session_id stream_id ≡ message_of session.stream_trackers stream_id
unfolding tracker_of
own_session trackers slot i session e stream_id = rw e

own_message :
    (trackers : List SessionTracker) (slot : RecvPacket) (i j : ℕ) (session : SessionTracker)
    (message : MessageTracker) (sid stream_id : ℕ)
    → find_slot (tracks_session slot.session_id) trackers ≡ some (i, session)
    → find_slot (tracks_stream slot.stream_id) session.stream_trackers ≡ some (j, message)
    → (slot.session_id == sid && slot.stream_id == stream_id) ≡ true
    → tracker_of trackers sid stream_id ≡ some message
unfolding tracker_of message_of
own_message trackers slot i j session message sid stream_id e f same =
    let a : slot.session_id ≡ sid = ground arith in
    let b : slot.stream_id ≡ stream_id = ground arith in rw (← a, ← b) (rw (e, f))

-- Delivering a fragment moves its stream's tracker on, and no other.
tracker_of-advance_trackers :
    (trackers : List SessionTracker) (slot : RecvPacket) (i j : ℕ) (session : SessionTracker)
    (message : MessageTracker)
    → find_slot (tracks_session slot.session_id) trackers ≡ some (i, session)
    → find_slot (tracks_stream slot.stream_id) session.stream_trackers ≡ some (j, message)
    → message.message_id ≡ slot.message_id
    → slot.session_id ≢ 0
    → slot.stream_id ≢ 0
    → 1 < slot.fragment_count
    → (sid stream_id : ℕ)
    → tracker_of (advance_trackers trackers slot) sid stream_id ≡ (
        if slot.session_id == sid && slot.stream_id == stream_id
        then some (advance_tracker message)
        else tracker_of trackers sid stream_id)
unfolding advance_trackers advance_session advance_tracker find_session_tracker find_message_tracker
tracker_of-advance_trackers trackers slot i j session message e f m z z' many sid stream_id =
    let (g, t) = find_slot-some (tracks_session slot.session_id) trackers i session e in
    let (g', t') =
      find_slot-some (tracks_stream slot.stream_id) session.stream_trackers j message f in
    let moved : SessionTracker = record session {
      stream_trackers = set session.stream_trackers j (advance_tracker message);
    } in
    let steps : advance_trackers trackers slot ≡ set trackers i moved = ground (arith, e, f) in
    let outer =
      tracker_of-set trackers slot.session_id i session moved sid stream_id e (ground arith)
        (ground arith) in
    let inner =
      message_of-set session.stream_trackers slot.stream_id j message (advance_tracker message)
        stream_id f (ground arith) (ground arith) in
    rw (steps, outer)
      (elim (Bool-cases (slot.session_id == sid)) [
        | inr other ↦ rw other
        | inl same ↦ rw (
          same,
          ap (λ k. tracker_of trackers k stream_id) (sym ((==_iff slot.session_id sid).0 same)),
          own_session trackers slot i session e stream_id,
          inner,
        )
      ])

-- What a fragment's delivery makes of a tracker: the next fragment is awaited, or the stream rests.
advance_tracker_position :
    (message : MessageTracker)
    → message.fragment_count < 2 ^ 32
    → let after = advance_tracker message in
      ((after.next_fragment_index ≡ 0)
        ⊎ ((after.message_id ≡ message.message_id)
            × (after.next_fragment_index ≡ message.next_fragment_index + 1)))
      × (after.fragment_count < 2 ^ 32)
unfolding advance_tracker
advance_tracker_position message small = ground arith

-- A single packet's delivery moves no tracker.
advance_trackers-single :
    (trackers : List SessionTracker) (slot : RecvPacket)
    → ltb 1 slot.fragment_count ≡ false
    → advance_trackers trackers slot ≡ trackers
unfolding advance_trackers
advance_trackers-single trackers slot h = rw h

-- What the next delivered fragment of a stream must be: its message's first, or the one after the
-- fragment `last`, which came before it.
abbrev pub Follows : Option (ℕ × ℕ) → ℕ → ℕ → Type 0
Follows last message_id index = (index ≡ 0) ⊎ (last ≡ some (message_id, index - 1))

abbrev pub FollowsIf : Bool → Option (ℕ × ℕ) → ℕ → ℕ → Type 0
FollowsIf true last message_id index = Follows last message_id index
FollowsIf false last message_id index = Unit

abbrev pub last_of : Bool → Option (ℕ × ℕ) → ℕ → ℕ → Option (ℕ × ℕ)
last_of true last message_id index = some (message_id, index)
last_of false last message_id index = last

-- Among delivered packets the fragments of one stream come in order.
abbrev pub InOrder : ℕ → ℕ → Option (ℕ × ℕ) → List RecvPacket → Type 0
InOrder sid stream_id last [] = Unit
InOrder sid stream_id last (packet ∷ packets) =
    FollowsIf (belongs sid stream_id packet) last packet.message_id packet.fragment_index
    × InOrder sid stream_id
        (last_of (belongs sid stream_id packet) last packet.message_id packet.fragment_index)
        packets

-- The packet that a call hands out.
abbrev pub handed_out : Drained → List RecvPacket
handed_out (delivered packet) = packet ∷ []
handed_out idle = []
handed_out refused = []

module _ (copy : ℕ → UserData → Option UserData) where
  unfoldable pub emitted : StreamState → Call → List RecvPacket
  emitted state (drains buffer) = handed_out (drain copy buffer state).1
  emitted state (ingests packet) = []
  emitted state (expires now_ms) = []
  emitted state (pumps now_ms) = []

  -- What a client gets from a stream over a sequence of calls.
  unfoldable pub deliveries : StreamState → List Call → List RecvPacket
  deliveries state [] = []
  deliveries state (c ∷ cs) = emitted state c ++ deliveries (step copy state c) cs

-- Where a stream awaits a later fragment, the one before it was the last to come out.
abbrev Linked : Option MessageTracker → Option (ℕ × ℕ) → Type 0
Linked tracker last =
    (((position tracker).1 ≡ 0) ⊎ (last ≡ some ((position tracker).0, (position tracker).1 - 1)))
    × Fits tracker

Restarts-Linked :
    (before after : Option MessageTracker) (last : Option (ℕ × ℕ))
    → Restarts before after
    → Linked before last
    → Linked after last
Restarts-Linked before after last (inl same, fits) (l, f) = (rw same l, fits f)
Restarts-Linked before after last (inr start, fits) (l, f) = (inl start, fits f)

-- A fragment count is a `uint32_t`.
abbrev pub IsSmall : Call → Type 0
IsSmall (ingests packet) = packet.fragment_count < 2 ^ 32
IsSmall (drains buffer) = Unit
IsSmall (expires now_ms) = Unit
IsSmall (pumps now_ms) = Unit

deliverable-named :
    (trackers : List SessionTracker) (slot : RecvPacket)
    → packet_is_deliverable trackers slot ≡ true
    → (slot.session_id ≢ 0) × (slot.stream_id ≢ 0)
unfolding packet_is_deliverable
deliverable-named trackers slot d = (ground arith, ground arith)

-- One fragment out of a stream, seen from its tracker.
fragment-Linked :
    (message : MessageTracker) (slot : RecvPacket) (last : Option (ℕ × ℕ))
    → message.message_id ≡ slot.message_id
    → slot.fragment_index ≡ message.next_fragment_index
    → Linked (some message) last
    → Follows last slot.message_id slot.fragment_index
      × Linked (some (advance_tracker message)) (some (slot.message_id, slot.fragment_index))
fragment-Linked message slot last m k l = ground (arith, advance_tracker_position message)

module _ (sid stream_id : ℕ) where
  -- A delivered packet follows the last of its stream, and leaves the stream linked to it.
  delivered-Linked :
      (trackers : List SessionTracker) (slot : RecvPacket) (last : Option (ℕ × ℕ))
      → packet_is_deliverable trackers slot ≡ true
      → Linked (tracker_of trackers sid stream_id) last
      → FollowsIf (belongs sid stream_id slot) last slot.message_id slot.fragment_index
        × Linked
            (tracker_of (advance_trackers trackers slot) sid stream_id)
            (last_of (belongs sid stream_id slot) last slot.message_id slot.fragment_index)
  delivered-Linked trackers slot last d l = elim (Bool-cases (ltb 1 slot.fragment_count)) [
    | inr single ↦ rw (single, advance_trackers-single trackers slot single) (tt, l)
    | inl many ↦
        let lots = ltb→lt 1 slot.fragment_count many in
        let (i, session, j, message, e, f, m, k) = deliverable-awaited trackers slot d lots in
        let (z, z') = deliverable-named trackers slot d in
        rw
          (
            tracker_of-advance_trackers trackers slot i j session message e f m z z' lots sid
                stream_id,
            many,
          )
          (elim (Bool-cases (slot.session_id == sid && slot.stream_id == stream_id)) [
            | inr other ↦ rw other (tt, l)
            | inl same ↦ rw same (
                fragment-Linked message slot last m k (
                  subst (λ t. Linked t last)
                    (own_message trackers slot i j session message sid stream_id e f same) l))
          ])
  ]

module _ (copy : ℕ → UserData → Option UserData) (sid stream_id : ℕ) where
  Drains-Linked :
      {state : StreamState} {r : StreamState × Drained} (last : Option (ℕ × ℕ))
      (rest : List RecvPacket)
      → Drains state r
      → Linked (tracker_of state.session_trackers sid stream_id) last
      → ((last' : Option (ℕ × ℕ))
          → Linked (tracker_of r.0.session_trackers sid stream_id) last'
          → InOrder sid stream_id last' rest)
      → InOrder sid stream_id last (handed_out r.1 ++ rest)
  unfolding deliver clear_slot
  Drains-Linked last rest (rests e) l after = after last l
  Drains-Linked last rest refuses l after = after last l
  Drains-Linked {state} last rest (leaves i slot user e) l after =
      let (f, l') =
        delivered-Linked sid stream_id state.session_trackers slot last
          (next_deliverable-some state i slot e).2 l in
      (f, after _ l')

  expire-keeps :
      (state : StreamState) (now_ms : ℕ)
      → (expire state now_ms).0.session_trackers ≡ state.session_trackers
  unfolding expire
  expire-keeps state now_ms = refl

  deliveries-InOrder :
      (state : StreamState) (cs : List Call) (last : Option (ℕ × ℕ))
      → All IsSmall cs
      → Linked (tracker_of state.session_trackers sid stream_id) last
      → InOrder sid stream_id last (deliveries copy state cs)
  unfolding deliveries emitted step pump
  deliveries-InOrder state [] last small l = tt
  deliveries-InOrder state (ingests packet ∷ cs) last (s, small) l =
      deliveries-InOrder (ingest state packet).0 cs last small
        (Restarts-Linked _ _ last (ingest-Restarts state packet s sid stream_id) l)
  deliveries-InOrder state (drains buffer ∷ cs) last (s, small) l =
      Drains-Linked last _ (drain-Drains copy buffer state) l
        (λ last' l'. deliveries-InOrder (drain copy buffer state).0 cs last' small l')
  deliveries-InOrder state (expires now_ms ∷ cs) last (s, small) l =
      deliveries-InOrder (expire state now_ms).0 cs last small (rw (expire-keeps state now_ms) l)
  deliveries-InOrder state (pumps now_ms ∷ cs) last (s, small) l =
      deliveries-InOrder (expire state now_ms).0 cs last small (rw (expire-keeps state now_ms) l)

tracker_of-state_init :
    (sid stream_id : ℕ) → tracker_of state_init.session_trackers sid stream_id ≡ none
unfolding state_init tracker_of find_slot session_tracker_capacity zero_session_tracker
tracker_of-state_init sid stream_id = refl

module _ (copy : ℕ → UserData → Option UserData) where
  -- Whatever calls a fresh stream takes, with fragment counts of 32 bits, the fragments of several that
  -- come out of one stream of one session are in order: each is its message's fragment 0, or comes
  -- right after the fragment before it of the same message.
  pub deliveries-state_init-InOrder :
      (sid stream_id : ℕ) (cs : List Call)
      → All IsSmall cs
      → InOrder sid stream_id none (deliveries copy state_init cs)
  deliveries-state_init-InOrder sid stream_id cs small =
      deliveries-InOrder copy sid stream_id state_init cs none small
        (rw (tracker_of-state_init sid stream_id) (inl refl, tt))
