-- ===== src/M7mux/Stream/Trackers.antt =====
-- src/stdlib/protocol/udp/m7mux/stream/stream.c: looking up the tracker of a stream, and what opening
-- and writing trackers does to the lookups of all streams.
use siglatch.Prelude.{
  ℕ, zero, suc, ◌≡◌, ◌≢◌, refl, ap, Bool, true, false, not, inl, inr, Option, none, some, List,
  if◌then◌else◌, ◌==◌, set, replicate, find_slot, find_slot-some, find_slot-set_other,
  find_slot-set_here, find_slot-set_fresh, arith, Option-cases, Bool-cases, ◌⊎◌,
}
use siglatch.M7mux.Stream.{
  MessageTracker, SessionTracker, zero_message_tracker, new_session_tracker, new_message_tracker,
  tracks_session, tracks_stream, find_session_tracker, find_message_tracker, tracker_capacity,
}

abbrev pub held : Option (ℕ × MessageTracker) → Option MessageTracker
held none = none
held (some (j, message)) = some message

-- The tracker of a stream in one session's table.
unfoldable pub message_of : List MessageTracker → ℕ → Option MessageTracker
message_of messages stream_id = held (find_slot (tracks_stream stream_id) messages)

abbrev message_in : Option (ℕ × SessionTracker) → ℕ → Option MessageTracker
message_in none stream_id = none
message_in (some (i, session)) stream_id = message_of session.stream_trackers stream_id

-- The tracker of a stream of a session.
unfoldable pub tracker_of : List SessionTracker → ℕ → ℕ → Option MessageTracker
unfolding message_of
tracker_of trackers session_id stream_id =
    message_in (find_slot (tracks_session session_id) trackers) stream_id

message_of-replicate :
    (n stream_id : ℕ)
    → find_slot (tracks_stream stream_id) (replicate n zero_message_tracker) ≡ none
unfolding find_slot
message_of-replicate zero stream_id = refl
message_of-replicate (suc n) stream_id = ground (arith, message_of-replicate n stream_id)

-- What `find_session_tracker` hands out: an active tracker for the id, in a table whose lookups are
-- those of the table that it was given.
pub record Found (trackers : List SessionTracker) (id i : ℕ) (session : SessionTracker)
    (trackers' : List SessionTracker) : Type 0 where
  pub active : session.active ≡ true
  pub named : session.session_id ≡ id
  pub here : find_slot (tracks_session id) trackers' ≡ some (i, session)
  pub same :
      (sid stream_id : ℕ) → tracker_of trackers' sid stream_id ≡ tracker_of trackers sid stream_id

tracks-eq :
    (id : ℕ) (session : SessionTracker)
    → tracks_session id session ≡ true
    → (session.active ≡ true) × (session.session_id ≡ id)
tracks-eq id session h = ground arith

-- A tracker for one session is none for another.
tracks-other :
    (id sid : ℕ) (session : SessionTracker)
    → session.session_id ≡ id
    → id ≢ sid
    → tracks_session sid session ≡ false
tracks-other id sid session e n = ground arith

open-same :
    (trackers : List SessionTracker) (id i : ℕ) (free : SessionTracker)
    → find_slot (tracks_session id) trackers ≡ none
    → find_slot (λ (t : SessionTracker). not t.active) trackers ≡ some (i, free)
    → (sid stream_id : ℕ)
    → tracker_of (set trackers i (new_session_tracker id)) sid stream_id
      ≡ tracker_of trackers sid stream_id
unfolding tracker_of new_session_tracker
open-same trackers id i free e f sid stream_id =
    let (g, idle) = find_slot-some (λ (t : SessionTracker). not t.active) trackers i free f in
    elim (Bool-cases (id == sid)) [
      | inl same ↦ ground (
        arith,
        message_of-replicate tracker_capacity stream_id,
        find_slot-set_fresh (tracks_session id) trackers i free (new_session_tracker id) e g,
      )
      | inr other ↦ ground (
        arith,
        find_slot-set_other (tracks_session sid) trackers i free (new_session_tracker id) g,
      )
    ]

-- The two ways to a session's tracker.
find_session_tracker_cases :
    (trackers : List SessionTracker) (id i : ℕ) (create : Bool) (session : SessionTracker)
    (trackers' : List SessionTracker)
    → find_session_tracker trackers id create ≡ some (i, session, trackers')
    → ((find_slot (tracks_session id) trackers ≡ some (i, session)) × (trackers' ≡ trackers))
      ⊎ ((free : SessionTracker) × (find_slot (tracks_session id) trackers ≡ none)
          × (find_slot (λ (t : SessionTracker). not t.active) trackers ≡ some (i, free))
          × (session ≡ new_session_tracker id)
          × (trackers' ≡ set trackers i (new_session_tracker id)))
unfolding find_session_tracker
find_session_tracker_cases trackers id i create session trackers' h =
    elim (Option-cases (find_slot (tracks_session id) trackers)) [
      | inl e ↦ elim (Option-cases (find_slot (λ (t : SessionTracker). not t.active) trackers)) [
        | inl f ↦ absurd (ground arith)
        | inr ((k, free), f) ↦ inr (free, e, ground arith, ground arith, ground arith)
      ]
      | inr ((k, s), e) ↦ inl (ground arith, ground arith)
    ]

pub find_session_tracker-Found :
    (trackers : List SessionTracker) (id i : ℕ) (create : Bool) (session : SessionTracker)
    (trackers' : List SessionTracker)
    → find_session_tracker trackers id create ≡ some (i, session, trackers')
    → Found trackers id i session trackers'
unfolding new_session_tracker
find_session_tracker-Found trackers id i create session trackers' h =
    elim (find_session_tracker_cases trackers id i create session trackers' h) [
      | inl (e, same) ↦
          let (_, t) = find_slot-some (tracks_session id) trackers i session e in
          record {
            active = (tracks-eq id session t).0;
            named = (tracks-eq id session t).1;
            here = rw same e;
            same = λ sid stream_id. rw same;
          }
      | inr (free, e, f, new, made) ↦ record {
        active = rw new;
        named = rw new;
        here =
            rw (made, new)
              (find_slot-set_fresh (tracks_session id) trackers i free (new_session_tracker id) e
                (find_slot-some (λ (t : SessionTracker). not t.active) trackers i free f).0
                (ground arith));
        same = λ sid stream_id. rw made (open-same trackers id i free e f sid stream_id);
      }
    ]

-- Writing an active tracker of the same session touches no other session.
pub tracker_of-set :
    (trackers : List SessionTracker) (id i : ℕ) (session session' : SessionTracker)
    (sid stream_id : ℕ)
    → find_slot (tracks_session id) trackers ≡ some (i, session)
    → session'.active ≡ true
    → session'.session_id ≡ id
    → tracker_of (set trackers i session') sid stream_id ≡ (
        if id == sid
        then message_of session'.stream_trackers stream_id
        else tracker_of trackers sid stream_id)
unfolding tracker_of
tracker_of-set trackers id i session session' sid stream_id e a n =
    let (g, t) = find_slot-some (tracks_session id) trackers i session e in
    elim (Bool-cases (id == sid)) [
      | inl same ↦
          ground (arith, find_slot-set_here (tracks_session id) trackers i session session' e)
      | inr other ↦
          ground (arith, find_slot-set_other (tracks_session sid) trackers i session session' g)
    ]

-- The same for the streams of one session.
pub message_of-set :
    (messages : List MessageTracker) (id j : ℕ) (message message' : MessageTracker) (stream_id : ℕ)
    → find_slot (tracks_stream id) messages ≡ some (j, message)
    → message'.active ≡ true
    → message'.stream_id ≡ id
    → message_of (set messages j message') stream_id
      ≡ (if id == stream_id then some message' else message_of messages stream_id)
unfolding message_of
message_of-set messages id j message message' stream_id e a n =
    let (g, t) = find_slot-some (tracks_stream id) messages j message e in
    elim (Bool-cases (id == stream_id)) [
      | inl same ↦
          ground (arith, find_slot-set_here (tracks_stream id) messages j message message' e)
      | inr other ↦
          ground
            (arith, find_slot-set_other (tracks_stream stream_id) messages j message message' g)
    ]

-- What `find_message_tracker` hands out: the stream's own tracker, or a new one in a free slot.
pub record FoundMessage (messages : List MessageTracker) (id j : ℕ) (message : MessageTracker)
    (messages' : List MessageTracker) : Type 0 where
  pub active : message.active ≡ true
  pub named : message.stream_id ≡ id
  pub here : find_slot (tracks_stream id) messages' ≡ some (j, message)
  pub own :
      (message_of messages id ≡ some message)
      ⊎ ((message_of messages id ≡ none) × (message ≡ new_message_tracker id))
  pub same :
      (stream_id : ℕ)
      → id ≢ stream_id
      → message_of messages' stream_id ≡ message_of messages stream_id

find_message_tracker_cases :
    (messages : List MessageTracker) (id j : ℕ) (create : Bool) (message : MessageTracker)
    (messages' : List MessageTracker)
    → find_message_tracker messages id create ≡ some (j, message, messages')
    → ((find_slot (tracks_stream id) messages ≡ some (j, message)) × (messages' ≡ messages))
      ⊎ ((free : MessageTracker) × (find_slot (tracks_stream id) messages ≡ none)
          × (find_slot (λ (t : MessageTracker). not t.active) messages ≡ some (j, free))
          × (message ≡ new_message_tracker id)
          × (messages' ≡ set messages j (new_message_tracker id)))
unfolding find_message_tracker
find_message_tracker_cases messages id j create message messages' h =
    elim (Option-cases (find_slot (tracks_stream id) messages)) [
      | inl e ↦ elim (Option-cases (find_slot (λ (t : MessageTracker). not t.active) messages)) [
        | inl f ↦ absurd (ground arith)
        | inr ((k, free), f) ↦ inr (free, e, ground arith, ground arith, ground arith)
      ]
      | inr ((k, s), e) ↦ inl (ground arith, ground arith)
    ]

pub find_message_tracker-FoundMessage :
    (messages : List MessageTracker) (id j : ℕ) (create : Bool) (message : MessageTracker)
    (messages' : List MessageTracker)
    → find_message_tracker messages id create ≡ some (j, message, messages')
    → FoundMessage messages id j message messages'
unfolding message_of
find_message_tracker-FoundMessage messages id j create message messages' h =
    elim (find_message_tracker_cases messages id j create message messages' h) [
      | inl (e, same) ↦
          let (_, t) = find_slot-some (tracks_stream id) messages j message e in
          record {
            active = ground arith;
            named = ground arith;
            here = rw same e;
            own = inl (rw e);
            same = λ stream_id other. rw same;
          }
      | inr (free, e, f, new, made) ↦
          let (g, idle) = find_slot-some (λ (t : MessageTracker). not t.active) messages j free f in
          record {
            active = rw new;
            named = rw new;
            here =
                rw (made, new)
                  (find_slot-set_fresh (tracks_stream id) messages j free (new_message_tracker id) e
                    g (ground arith));
            own = inr (rw e, new);
            same = λ stream_id other. rw made (
                ap held (
                  find_slot-set_other (tracks_stream stream_id) messages j free
                    (new_message_tracker id) g (ground arith) (ground arith)));
          }
    ]
