-- ===== src/Daemon/Job/Fifo.antt =====
-- src/siglatch/app/daemon/job.c: the circle of slots is a queue of loaded jobs.
use siglatch.Prelude.{
  ℕ, ◌<◌, ◌≡◌, ◌≢◌, refl, sym, ◌∙◌, ap, subst, Bool, true, false, inl, inr, ◌⊎◌, Option, none, some,
  List, [], ◌∷◌, ◌++◌, if◌then◌else◌, ltb, leb, ◌==◌, get_or, take, length, contents, length-set,
  length-contents, IsCircular, push-IsCircular, push-contents, pop-IsCircular, pop-contents,
  contents-set_outside, arith, Bool-cases, Option-cases,
}
use siglatch.M7mux.Packet.{Bytes, RecvPacket, UserData}
use siglatch.Daemon.Buffer.{
  Buffer, no_buffer, payload_block_size, copy_payload, IsBuffer, IsTooBig, copy_payload-IsBuffer,
}
use siglatch.Daemon.Job.{
  ConnectionJob, RequestPacket, JobState, zero_job, zero_request, with_payload, envelope,
  load_payload, load_from_normal, enqueue, drain,
}

-- The jobs that wait, the first to go first.
abbrev pub waiting : JobState → List ConnectionJob
waiting state = contents zero_job state.ready_queue state.ready_head state.ready_count

abbrev pub IsValid : JobState → Type 0
IsValid state = IsCircular state.ready_queue state.ready_head state.ready_tail state.ready_count

-- The bytes that a packet carries for the daemon, if it carries any.
abbrev pub carried : RecvPacket → Option Bytes
carried normal =
    if normal.wire_version == 0
    then some normal.raw_bytes
    else elim normal.user [ none ↦ none | some user ↦ some user.payload ]

-- A structured packet's job has the ids of its user, and a raw one's has none.
abbrev pub IsAsked : RecvPacket → ConnectionJob → Type 0
IsAsked normal job =
    ((normal.wire_version ≡ 0)
      × (job.request.user_id ≡ 0)
      × (job.request.action_id ≡ 0)
      × (job.request.challenge ≡ 0))
    ⊎ ((user : UserData) × (normal.user ≡ some user)
        × (normal.wire_version ≢ 0)
        × (job.request.user_id ≡ user.user_id)
        × (job.request.action_id ≡ user.action_id)
        × (job.request.challenge ≡ user.challenge)
        × (job.request.hmac ≡ user.hmac))

-- The fields that a job takes from the transport.
pub record IsEnveloped (normal : RecvPacket) (job : ConnectionJob) : Type 0 where
  pub available : job.available ≡ true
  pub should_reply : job.should_reply ≡ normal.should_reply
  pub synthetic_session : job.synthetic_session ≡ normal.synthetic_session
  pub wire_version : job.wire_version ≡ normal.wire_version
  pub wire_form : job.wire_form ≡ normal.wire_form
  pub session_id : job.session_id ≡ normal.session_id
  pub message_id : job.message_id ≡ normal.message_id
  pub stream_id : job.stream_id ≡ normal.stream_id
  pub fragment_index : job.fragment_index ≡ normal.fragment_index
  pub fragment_count : job.fragment_count ≡ normal.fragment_count
  pub timestamp : job.timestamp ≡ normal.timestamp
  pub ip : job.ip ≡ take 63 normal.ip
  pub client_port : job.client_port ≡ normal.client_port
  pub encrypted : job.encrypted ≡ normal.encrypted
  pub wire_auth : job.wire_auth ≡ normal.wire_auth

-- A job has the payload of its packet, in a buffer that holds it, the packet's ids and those of its user,
-- and no response yet.
pub record IsJobOf (normal : RecvPacket) (job : ConnectionJob) : Type 0 where
  pub payload : some job.request.payload.bytes ≡ carried normal
  pub buffer : IsBuffer job.request.payload
  pub asked : IsAsked normal job
  pub enveloped : IsEnveloped normal job
  pub unanswered : job.response ≡ no_buffer

envelope-IsEnveloped :
    (normal : RecvPacket) (request : RequestPacket)
    → IsEnveloped normal (record (envelope normal) { request = request })
envelope-IsEnveloped normal request = record {
  available = refl;
  should_reply = refl;
  synthetic_session = refl;
  wire_version = refl;
  wire_form = refl;
  session_id = refl;
  message_id = refl;
  stream_id = refl;
  fragment_index = refl;
  fragment_count = refl;
  timestamp = refl;
  ip = refl;
  client_port = refl;
  encrypted = refl;
  wire_auth = refl;
}

no_buffer-IsBuffer : IsBuffer no_buffer
no_buffer-IsBuffer = record { holds = omega arith; fits = omega arith }

-- Why a packet is not loaded: it carries nothing or too much.
abbrev pub IsRefused : (ℕ → Bool) → Option Bytes → Type 0
IsRefused realloc none = Unit
IsRefused realloc (some payload) = IsTooBig realloc 0 payload_block_size (length payload)

load_payload_lem :
    (realloc : ℕ → Bool) (job : ConnectionJob) (payload : Bytes)
    → job.request.payload ≡ no_buffer
    → ((buffer : Buffer) × (load_payload realloc job payload ≡ (with_payload job buffer, true))
        × (buffer.bytes ≡ payload)
        × IsBuffer buffer)
      ⊎ (((load_payload realloc job payload).1 ≡ false)
          × IsTooBig realloc 0 payload_block_size (length payload))
unfolding load_payload
load_payload_lem realloc job [] fresh = inl (
  job.request.payload,
  refl,
  ap (λ (b : Buffer). b.bytes) fresh,
  subst IsBuffer (sym fresh) no_buffer-IsBuffer,
)
load_payload_lem realloc job (c ∷ cs) fresh =
    let nonempty : ltb 0 (length (c ∷ cs)) ≡ true = ground arith in
    elim (copy_payload-IsBuffer realloc job.request.payload (c ∷ cs)
      (subst IsBuffer (sym fresh) no_buffer-IsBuffer)) [
        | inl (copied, bytes, b) ↦ inl (
          (copy_payload realloc job.request.payload (c ∷ cs)).0,
          rw (nonempty, copied) refl,
          bytes,
          b,
        )
        | inr (failed, why) ↦ inr (
          rw (nonempty, ap (λ (r : Buffer × Bool). r.1) failed) refl,
          subst (λ (b : Buffer). IsTooBig realloc b.cap payload_block_size (length (c ∷ cs))) fresh
              why,
        )
      ]

abbrev requested : RecvPacket → UserData → ConnectionJob
requested normal user = record (envelope normal) {
  request = record zero_request {
    user_id = user.user_id;
    action_id = user.action_id;
    challenge = user.challenge;
    hmac = user.hmac;
  };
}

load_from_normal-user :
    (realloc : ℕ → Bool) (normal : RecvPacket) (user : UserData)
    → (normal.wire_version == 0) ≡ false
    → normal.user ≡ some user
    → load_from_normal realloc normal ≡ load_payload realloc (requested normal user) user.payload
unfolding load_from_normal
load_from_normal-user realloc normal user structured somebody = rw (structured, somebody) refl

-- A packet is loaded into a job of it, or refused with a reason.
load_from_normal_lem :
    (realloc : ℕ → Bool) (normal : RecvPacket)
    → (((load_from_normal realloc normal).1 ≡ true)
        × IsJobOf normal (load_from_normal realloc normal).0)
      ⊎ (((load_from_normal realloc normal).1 ≡ false) × IsRefused realloc (carried normal))
unfolding load_from_normal
load_from_normal_lem realloc normal = elim (Bool-cases (normal.wire_version == 0)) [
  | inl raw ↦ elim (load_payload_lem realloc (envelope normal) normal.raw_bytes refl) [
    | inl (buffer, loaded, bytes, b) ↦ inl (
      rw (raw, loaded) refl,
      rw (raw, loaded)
          (record {
            payload = rw raw (ap some bytes);
            buffer = b;
            asked = inl (ground arith, refl, refl, refl);
            enveloped = envelope-IsEnveloped normal (with_payload (envelope normal) buffer).request;
            unanswered = refl;
          }),
    )
    | inr (failed, why) ↦ inr (rw raw failed, rw raw why)
  ]
  | inr structured ↦ elim (Option-cases normal.user) [
    | inl nobody ↦ inr (rw (structured, nobody) refl, rw (structured, nobody) tt)
    | inr (user, somebody) ↦
        let job = requested normal user in
        elim (load_payload_lem realloc job user.payload refl) [
          | inl (buffer, loaded, bytes, b) ↦ inl (
            rw (structured, somebody, loaded) refl,
            subst (λ (r : ConnectionJob × Bool). IsJobOf normal r.0)
                (sym (load_from_normal-user realloc normal user structured somebody ∙ loaded))
                (record {
                  payload = rw (structured, somebody) (ap some bytes);
                  buffer = b;
                  asked = inr (user, somebody, ground arith, refl, refl, refl, refl);
                  enveloped = envelope-IsEnveloped normal (with_payload job buffer).request;
                  unanswered = refl;
                }),
          )
          | inr (failed, why) ↦
              inr (rw (structured, somebody) failed, rw (structured, somebody) why)
        ]
  ]
]

-- `enqueue` puts a job of the packet at the end of the queue, with all that the transport and the user
-- part say and the bytes that it carries, or it answers 0 and the jobs that wait stay the same: then 64
-- wait already, or the packet carries no user part, or its payload is above 2 ^ 63 bytes or `realloc`
-- refuses the capacity for it: the first that holds it of 1280 bytes and its doublings.
pub enqueue-waiting :
    (realloc : ℕ → Bool) (state : JobState) (normal : RecvPacket)
    → IsValid state
    → IsValid (enqueue realloc state normal).0
      × ((((enqueue realloc state normal).1 ≡ true)
            × (length (waiting state) < 64)
            × ((job : ConnectionJob) × IsJobOf normal job
                × (waiting (enqueue realloc state normal).0 ≡ waiting state ++ (job ∷ []))))
          ⊎ (((enqueue realloc state normal).1 ≡ false)
              × (waiting (enqueue realloc state normal).0 ≡ waiting state)
              × ((length (waiting state) ≡ 64) ⊎ IsRefused realloc (carried normal))))
unfolding enqueue
enqueue-waiting realloc state normal v =
    let n = length-contents zero_job state.ready_queue state.ready_head state.ready_count in
    let job = (load_from_normal realloc normal).0 in
    elim (Bool-cases (leb 64 state.ready_count)) [
      | inl full ↦ rw full (v, inr (refl, refl, inl (ground (arith, n, v.fits))))
      | inr room ↦ elim (load_from_normal_lem realloc normal) [
        | inl (loaded, is_job) ↦
            rw (room, loaded)
              (
                push-IsCircular zero_job state.ready_queue state.ready_head state.ready_tail
                    state.ready_count v job (ground arith),
                inl (
                  refl,
                  ground (arith, n),
                  (
                    job,
                    is_job,
                    push-contents zero_job state.ready_queue state.ready_head state.ready_tail
                        state.ready_count v job (ground arith),
                  ),
                ),
              )
        | inr (failed, why) ↦
            rw (room, failed)
              (
                record {
                  full = length-set state.ready_queue state.ready_tail job ∙ v.full;
                  head_in = v.head_in;
                  tail_at = v.tail_at;
                  fits = v.fits;
                },
                inr (
                  refl,
                  contents-set_outside zero_job state.ready_queue state.ready_head state.ready_count
                      state.ready_tail job (λ k h. ground (arith, v.tail_at)),
                  inr why,
                ),
              )
      ]
    ]

-- `drain` takes the job at the front, or answers 0 where none waits and changes nothing.
drain-waiting :
    (state : JobState)
    → IsValid state
    → (((drain state ≡ (state, none)) × (waiting state ≡ []))
        ⊎ ((job : ConnectionJob) × ((drain state).1 ≡ some job)
            × (waiting state ≡ job ∷ waiting (drain state).0)
            × IsValid (drain state).0))
unfolding drain contents
drain-waiting state v = elim (Bool-cases (state.ready_count == 0)) [
  | inl e ↦
      let none_left : state.ready_count ≡ 0 = ground arith in inl (rw e refl, rw none_left refl)
  | inr e ↦
      let some_left : 0 < state.ready_count = ground arith in
      inr (
        get_or state.ready_queue state.ready_head zero_job,
        rw e refl,
        rw e (
            pop-contents zero_job state.ready_queue state.ready_head state.ready_tail
              state.ready_count v zero_job some_left),
        rw e (
            pop-IsCircular zero_job state.ready_queue state.ready_head state.ready_tail
              state.ready_count v zero_job some_left),
      )
]
