-- ===== src/Daemon/Job.antt =====
-- src/siglatch/app/daemon/job.c: the jobs that wait for the daemon, in a circle of 64 slots.
-- `realloc` says for which sizes it finds room. `drain` returns the job that the code writes into
-- `out_job`, `none` where it writes zeroes. `consume` calls the payload layer and is left out.
pub mod Fifo
mod Tests
use siglatch.Prelude.{
  ℕ, ◌+◌, ◌-◌, ◌%◌, Bool, true, false, Option, none, some, List, [], ◌∷◌, if◌then◌else◌, ltb, leb,
  ◌==◌, set, get_or, replicate, take, length,
}
use siglatch.M7mux.Packet.{Bytes, UserData, RecvPacket}
use siglatch.Daemon.Buffer.{Buffer, no_buffer, copy_payload, reserve_buffer, response_block_size}

-- `AppDaemonRequestPacket`.
pub record RequestPacket : Type 0 where
  pub user_id : ℕ
  pub action_id : ℕ
  pub challenge : ℕ
  pub hmac : Bytes
  pub payload : Buffer

-- `AppConnectionJob`.
pub record ConnectionJob : Type 0 where
  pub complete : Bool
  pub should_reply : Bool
  pub available : Bool
  pub synthetic_session : Bool
  pub wire_version : ℕ
  pub wire_form : ℕ
  pub session_id : ℕ
  pub message_id : ℕ
  pub stream_id : ℕ
  pub fragment_index : ℕ
  pub fragment_count : ℕ
  pub timestamp : ℕ
  pub ip : Bytes
  pub client_port : ℕ
  pub encrypted : Bool
  pub wire_auth : Bool
  pub request : RequestPacket
  pub response : Buffer

-- `AppJobState`.
pub record JobState : Type 0 where
  pub ready_queue : List ConnectionJob
  pub ready_head : ℕ
  pub ready_tail : ℕ
  pub ready_count : ℕ

abbrev pub job_queue_capacity : ℕ
job_queue_capacity = 64

abbrev pub zero_request : RequestPacket
zero_request = record {
  user_id = 0;
  action_id = 0;
  challenge = 0;
  hmac = replicate 32 0;
  payload = no_buffer;
}

abbrev pub zero_job : ConnectionJob
zero_job = record {
  complete = false;
  should_reply = false;
  available = false;
  synthetic_session = false;
  wire_version = 0;
  wire_form = 0;
  session_id = 0;
  message_id = 0;
  stream_id = 0;
  fragment_index = 0;
  fragment_count = 0;
  timestamp = 0;
  ip = [];
  client_port = 0;
  encrypted = false;
  wire_auth = false;
  request = zero_request;
  response = no_buffer;
}

abbrev pub with_payload : ConnectionJob → Buffer → ConnectionJob
with_payload job payload = record job { request = record (job.request) { payload = payload } }

-- The release of both buffers.
abbrev pub release_job : ConnectionJob → ConnectionJob
release_job job = record (with_payload job no_buffer) { response = no_buffer }

unfoldable pub reserve_response : (ℕ → Bool) → ConnectionJob → ℕ → ConnectionJob × Bool
reserve_response realloc job min_cap =
    let (response, granted) = reserve_buffer realloc job.response min_cap response_block_size in
    (record job { response = response }, granted)

-- The transport's fields of a job; the 64th byte of the address is cut off.
abbrev pub envelope : RecvPacket → ConnectionJob
envelope normal = record {
  complete = false;
  should_reply = normal.should_reply;
  available = true;
  synthetic_session = normal.synthetic_session;
  wire_version = normal.wire_version;
  wire_form = normal.wire_form;
  session_id = normal.session_id;
  message_id = normal.message_id;
  stream_id = normal.stream_id;
  fragment_index = normal.fragment_index;
  fragment_count = normal.fragment_count;
  timestamp = normal.timestamp;
  ip = take 63 normal.ip;
  client_port = normal.client_port;
  encrypted = normal.encrypted;
  wire_auth = normal.wire_auth;
  request = zero_request;
  response = no_buffer;
}

-- The payload is copied into the job, which is cleared where that fails.
unfoldable pub load_payload : (ℕ → Bool) → ConnectionJob → Bytes → ConnectionJob × Bool
load_payload realloc job payload =
    let copied = copy_payload realloc job.request.payload payload in
    if ltb 0 (length payload)
    then (if copied.1 then (with_payload job copied.0, true) else (zero_job, false))
    else (job, true)

unfoldable pub load_from_normal : (ℕ → Bool) → RecvPacket → ConnectionJob × Bool
load_from_normal realloc normal =
    if normal.wire_version == 0
    then load_payload realloc (envelope normal) normal.raw_bytes
    else elim normal.user [
      | none ↦ (envelope normal, false)
      | some user ↦
          load_payload realloc
            (record (envelope normal) {
              request = record zero_request {
                user_id = user.user_id;
                action_id = user.action_id;
                challenge = user.challenge;
                hmac = user.hmac;
              };
            })
            user.payload
    ]

unfoldable pub state_init : JobState
state_init = record {
  ready_queue = replicate job_queue_capacity zero_job;
  ready_head = 0;
  ready_tail = 0;
  ready_count = 0;
}

unfoldable pub state_reset : JobState → JobState
state_reset state = state_init

-- A job that cannot be loaded stays in the free slot, as far as it came.
unfoldable pub enqueue : (ℕ → Bool) → JobState → RecvPacket → JobState × Bool
enqueue realloc state normal =
    let loaded = load_from_normal realloc normal in
    let queue = set state.ready_queue state.ready_tail loaded.0 in
    if leb job_queue_capacity state.ready_count
    then (state, false)
    else if loaded.1
    then (
      record {
        ready_queue = queue;
        ready_head = state.ready_head;
        ready_tail = (state.ready_tail + 1) % job_queue_capacity;
        ready_count = state.ready_count + 1;
      },
      true,
    )
    else (record state { ready_queue = queue }, false)

unfoldable pub drain : JobState → JobState × Option ConnectionJob
drain state = if state.ready_count == 0 then (state, none) else (
  record {
    ready_queue = set state.ready_queue state.ready_head zero_job;
    ready_head = (state.ready_head + 1) % job_queue_capacity;
    ready_tail = state.ready_tail;
    ready_count = state.ready_count - 1;
  },
  some (get_or state.ready_queue state.ready_head zero_job),
)

unfoldable pub dispose : ConnectionJob → ConnectionJob
dispose job = zero_job

unfoldable pub flush_buffer : ConnectionJob → ConnectionJob
flush_buffer job = zero_job
