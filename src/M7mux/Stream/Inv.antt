-- ===== src/M7mux/Stream/Inv.antt =====
-- The counter of a stream counts its occupied slots, whatever calls it takes.
use siglatch.Prelude.{
  ℕ, ◌+◌, ◌-◌, ◌^◌, ◌≤◌, ◌≡◌, ◌≢◌, refl, sym, ◌∙◌, ◌%◌, Bool, true, false, ◌&&◌, not, inl, inr,
  Option, none, some, List, [], ◌∷◌, if◌then◌else◌, ◌==◌, set, length, length-set, length-replicate,
  find_slot-some, count_if, count_if-set, count_if-le-length, get_elem?, arith, Option-cases,
  Bool-cases,
}
use siglatch.M7mux.Packet.{UserData, RecvPacket, zero_packet}
use siglatch.M7mux.Stream.{
  packet_is_deliverable, StreamState, SessionTracker, is_free, same_fragment, is_final_fragment,
  queue_slot, queue_packet, ingest_message, ingest, state_init, ready_queue_capacity,
  message_tracker_begin, assign_message_id, assign_stream_id, find_message_tracker,
  find_session_tracker, is_expired,
}
use siglatch.M7mux.Stream.Delivery.{
  Drained, idle, refused, delivered, advance_trackers, clear_slot, deliver, drain, next_deliverable,
  expire_slots, expire, pump, Call, ingests, drains, expires, pumps, step, run,
}

abbrev pub occupied : RecvPacket → Bool
occupied slot = not (is_free slot)

-- The table has its 64 slots, and `ready_count` is the number of the occupied ones.
pub record IsCounted (state : StreamState) : Type 0 where
  pub slots : length state.ready_queue ≡ 64
  pub counted : state.ready_count ≡ count_if occupied state.ready_queue

pub state_init-IsCounted : IsCounted state_init
unfolding state_init ready_queue_capacity count_if
state_init-IsCounted = record { slots = length-replicate 64 zero_packet; counted = refl }

-- Where `queue_slot` finds a free slot, that slot of the table is free.
queue_slot-get :
    (queue : List RecvPacket) (packet : RecvPacket) (i : ℕ) (slot : RecvPacket)
    → queue_slot queue packet ≡ some (i, slot)
    → get_elem? queue i ≡ some slot
unfolding queue_slot
queue_slot-get queue packet i slot h = ground (
  arith,
  find_slot-some (λ s. same_fragment s packet) queue i slot,
  find_slot-some is_free queue i slot,
)

-- Writing a packet into a free slot adds one to the count.
occupy-IsCounted :
    (state : StreamState) (i : ℕ) (slot packet : RecvPacket)
    → packet.session_id ≢ 0
    → get_elem? state.ready_queue i ≡ some slot
    → is_free slot ≡ true
    → IsCounted state
    → IsCounted (record state {
      ready_queue = set state.ready_queue i packet;
      ready_count = (state.ready_count + 1) % 2 ^ 64;
    })
occupy-IsCounted state i slot packet p g f v = record {
  slots = length-set state.ready_queue i packet ∙ v.slots;
  counted = ground (
    arith,
    count_if-set occupied state.ready_queue i slot packet g,
    count_if-le-length occupied state.ready_queue,
    v.slots,
    v.counted,
  );
}

-- Clearing an occupied slot takes one off the count.
pub clear_slot-IsCounted :
    (state : StreamState) (i : ℕ) (slot : RecvPacket)
    → get_elem? state.ready_queue i ≡ some slot
    → occupied slot ≡ true
    → IsCounted state
    → IsCounted (clear_slot state i)
unfolding clear_slot
clear_slot-IsCounted state i slot g o v = record {
  slots = length-set state.ready_queue i zero_packet ∙ v.slots;
  counted = ground (arith, count_if-set occupied state.ready_queue i slot zero_packet g, v.counted);
}

pub queue_packet-IsCounted :
    (state : StreamState) (packet : RecvPacket)
    → packet.session_id ≢ 0
    → IsCounted state
    → IsCounted (queue_packet state packet).0
unfolding queue_packet
queue_packet-IsCounted state packet p v =
    elim (Option-cases (queue_slot state.ready_queue packet)) [
      | inl e ↦ rw (e, queue_packet) v
      | inr ((i, slot), e) ↦ elim (Bool-cases (is_free slot)) [
        | inl f ↦
            rw (e, queue_packet)
              (rw f (
                occupy-IsCounted state i slot
                  (record packet { complete = is_final_fragment packet }) p
                  (queue_slot-get state.ready_queue packet i slot e) f v))
        | inr f ↦ rw (e, queue_packet) (rw f v)
      ]
    ]

-- The trackers play no part.
abbrev pub retrack : StreamState → List SessionTracker → StreamState
retrack state trackers = record state { session_trackers = trackers }

-- What `ingest` comes to: the packet is turned away, or queued under the ids that it was assigned.
pub data Ingested (state : StreamState) (packet : RecvPacket) : StreamState × Bool → Type 0 where
  turned_away :
      (trackers : List SessionTracker) → Ingested state packet (retrack state trackers, false)
  queued :
      (trackers : List SessionTracker) (packet' : RecvPacket)
      → packet'.session_id ≡ packet.session_id
      → packet.session_id ≢ 0
      → Ingested state packet (queue_packet (retrack state trackers) packet')

ingest_message-Ingested :
    (state : StreamState) (trackers : List SessionTracker) (i : ℕ) (session : SessionTracker)
    (packet packet' : RecvPacket)
    → packet.session_id ≡ packet'.session_id
    → packet'.session_id ≢ 0
    → Ingested state packet' (ingest_message state trackers i session packet)
unfolding ingest_message
ingest_message-Ingested state trackers i session packet packet' same named =
    elim (Option-cases (find_message_tracker session.stream_trackers packet.stream_id true)) [
      | inl e ↦ rw (e, ingest_message) (turned_away (set trackers i session))
      | inr ((j, message, messages), e) ↦
          rw (e, ingest_message)
            (branch
              (message_tracker_begin (assign_message_id message packet.message_id).0
                (record packet { message_id = (assign_message_id message packet.message_id).1 })).1
              (set trackers i (record session {
                stream_trackers =
                    set messages j
                      (message_tracker_begin (assign_message_id message packet.message_id).0
                        (record packet {
                          message_id = (assign_message_id message packet.message_id).1;
                        })).0;
              }))
              (record packet { message_id = (assign_message_id message packet.message_id).1 }) same)
    ]
  where
    branch :
        (accepted : Bool) (trackers' : List SessionTracker) (p : RecvPacket)
        → p.session_id ≡ packet'.session_id
        → Ingested state packet' (
            if accepted
            then queue_packet (retrack state trackers') p
            else (retrack state trackers', false))
    branch true trackers' p same' = queued trackers' p same' named
    branch false trackers' p same' = turned_away trackers'

pub ingest-Ingested :
    (state : StreamState) (packet : RecvPacket) → Ingested state packet (ingest state packet)
unfolding ingest
ingest-Ingested state packet = elim (Bool-cases (packet.session_id == 0)) [
  | inl z ↦ rw (z, ingest) (turned_away state.session_trackers)
  | inr nz ↦
      elim (Option-cases (find_session_tracker state.session_trackers packet.session_id true)) [
        | inl e ↦ rw (nz, ingest) (rw (e, ingest) (turned_away state.session_trackers))
        | inr ((i, session, trackers), e) ↦
            rw (nz, ingest)
              (rw (e, ingest)
                (ingest_message-Ingested state trackers i
                  (assign_stream_id session packet.stream_id).0
                  (record packet { stream_id = (assign_stream_id session packet.stream_id).1 })
                  packet refl (ground arith)))
      ]
]

Ingested-IsCounted :
    {state : StreamState} {packet : RecvPacket} {r : StreamState × Bool}
    → Ingested state packet r
    → IsCounted state
    → IsCounted r.0
Ingested-IsCounted {state} (turned_away trackers) v = record {
  slots = v.slots;
  counted = v.counted;
}
Ingested-IsCounted {state} (queued trackers packet' same named) v =
    queue_packet-IsCounted (retrack state trackers) packet' (λ z. named (sym same ∙ z))
      (record { slots = v.slots; counted = v.counted })

pub ingest-IsCounted :
    (state : StreamState) (packet : RecvPacket)
    → IsCounted state
    → IsCounted (ingest state packet).0
ingest-IsCounted state packet v = Ingested-IsCounted (ingest-Ingested state packet) v

-- What `drain` comes to: the state stays, or the next deliverable slot leaves it.
pub data Drains (state : StreamState) : StreamState × Drained → Type 0 where
  rests : next_deliverable state ≡ none → Drains state (state, idle)
  refuses : Drains state (state, refused)
  leaves :
      (i : ℕ) (slot : RecvPacket) (user : Option UserData)
      → next_deliverable state ≡ some (i, slot)
      → Drains state (deliver state i slot, delivered (record slot { user = user }))

module _ (copy : ℕ → UserData → Option UserData) (buffer : Bool) (state : StreamState) where
  copied-Drains :
      (i : ℕ) (slot : RecvPacket) (copied : Option UserData)
      → next_deliverable state ≡ some (i, slot)
      → Drains state (elim copied [
        | none ↦ (state, refused)
        | some user' ↦ (deliver state i slot, delivered (record slot { user = some user' }))
      ])
  copied-Drains i slot none e = refuses
  copied-Drains i slot (some user') e = leaves i slot (some user') e

  offered-Drains :
      (i : ℕ) (slot : RecvPacket) (user : UserData)
      → next_deliverable state ≡ some (i, slot)
      → (b : Bool)
      → Drains state (
          if b
          then elim (copy slot.wire_version user) [
            | none ↦ (state, refused)
            | some user' ↦ (deliver state i slot, delivered (record slot { user = some user' }))
          ]
          else (state, refused))
  offered-Drains i slot user e true = copied-Drains i slot (copy slot.wire_version user) e
  offered-Drains i slot user e false = refuses

  pub drain-Drains : Drains state (drain copy buffer state)
  unfolding drain
  drain-Drains = elim (Option-cases (next_deliverable state)) [
    | inl e ↦ rw (e, drain) (rests e)
    | inr ((i, slot), e) ↦ rw (e, drain) (go i slot slot.user e)
  ]
    where
      go :
          (i : ℕ) (slot : RecvPacket) (user : Option UserData)
          → next_deliverable state ≡ some (i, slot)
          → Drains state (elim user [
            | none ↦ (deliver state i slot, delivered slot)
            | some u ↦
                if buffer
                then elim (copy slot.wire_version u) [
                  | none ↦ (state, refused)
                  | some user' ↦
                      (deliver state i slot, delivered (record slot { user = some user' }))
                ]
                else (state, refused)
          ])
      go i slot none e = leaves i slot slot.user e
      go i slot (some u) e = offered-Drains i slot u e buffer

-- The slot that `drain` takes is occupied and its turn has come.
pub next_deliverable-some :
    (state : StreamState) (i : ℕ) (slot : RecvPacket)
    → next_deliverable state ≡ some (i, slot)
    → (get_elem? state.ready_queue i ≡ some slot)
      × (occupied slot ≡ true)
      × (packet_is_deliverable state.session_trackers slot ≡ true)
unfolding next_deliverable
next_deliverable-some state i slot e = ground (
  arith,
  find_slot-some (λ s. occupied s && packet_is_deliverable state.session_trackers s)
      state.ready_queue i slot e,
)

Drains-IsCounted :
    {state : StreamState} {r : StreamState × Drained}
    → Drains state r
    → IsCounted state
    → IsCounted r.0
unfolding deliver
Drains-IsCounted (rests e) v = v
Drains-IsCounted refuses v = v
Drains-IsCounted {state} (leaves i slot user e) v =
    clear_slot-IsCounted (retrack state (advance_trackers state.session_trackers slot)) i slot
      (next_deliverable-some state i slot e).0 (next_deliverable-some state i slot e).1
      (record { slots = v.slots; counted = v.counted })

pub drain-IsCounted :
    (copy : ℕ → UserData → Option UserData) (buffer : Bool) (state : StreamState)
    → IsCounted state
    → IsCounted (drain copy buffer state).0
drain-IsCounted copy buffer state v = Drains-IsCounted (drain-Drains copy buffer state) v

pub expire_slots-counted :
    (now_ms : ℕ) (queue : List RecvPacket) (count : ℕ)
    → count_if occupied queue ≤ count
    → let (queue', count', expired) = expire_slots now_ms queue count in
      (length queue' ≡ length queue)
      × (count' + count_if occupied queue ≡ count + count_if occupied queue')
      × (count' + expired ≡ count)
unfolding expire_slots is_expired count_if
expire_slots-counted now_ms [] count h = ground arith
expire_slots-counted now_ms (s ∷ queue) count h =
    ground
      (arith, expire_slots-counted now_ms queue (if is_expired s now_ms then count - 1 else count))

pub expire-IsCounted :
    (state : StreamState) (now_ms : ℕ) → IsCounted state → IsCounted (expire state now_ms).0
unfolding expire
expire-IsCounted state now_ms v =
    let (same, counted, _) =
      expire_slots-counted now_ms state.ready_queue state.ready_count (omega (arith, v.counted)) in
    record { slots = same ∙ v.slots; counted = omega (arith, counted, v.counted) }

module _ (copy : ℕ → UserData → Option UserData) where
  -- Every call of the stream keeps `ready_count` equal to the number of occupied slots.
  pub step-IsCounted :
      (state : StreamState) (c : Call) → IsCounted state → IsCounted (step copy state c)
  unfolding step pump
  step-IsCounted state (ingests packet) v = ingest-IsCounted state packet v
  step-IsCounted state (drains buffer) v = drain-IsCounted copy buffer state v
  step-IsCounted state (expires now_ms) v = expire-IsCounted state now_ms v
  step-IsCounted state (pumps now_ms) v = expire-IsCounted state now_ms v

  run-IsCounted :
      (state : StreamState) (cs : List Call) → IsCounted state → IsCounted (run copy state cs)
  unfolding run
  run-IsCounted state [] v = v
  run-IsCounted state (c ∷ cs) v = run-IsCounted (step copy state c) cs (step-IsCounted state c v)

  -- After any calls on a fresh stream the table has 64 slots and `ready_count` is the number of
  -- occupied ones.
  pub run-state_init-IsCounted : (cs : List Call) → IsCounted (run copy state_init cs)
  run-state_init-IsCounted cs = run-IsCounted state_init cs state_init-IsCounted
