-- ===== src/Daemon/Reply.antt =====
-- src/siglatch/app/daemon/helper.c and runner.c: how the reply of a job that was consumed goes to the
-- outbox. The multiplexer is a parameter: its state, and the outbox's `stage`, `stage_bytes` and
-- `flush`, which says whether its answer is not below 0.
mod Tests
use siglatch.Prelude.{
  ℕ, ◌+◌, ◌%◌, ◌^◌, ◌<◌, ◌≡◌, ◌≢◌, refl, Bool, true, false, not, ◌&&◌, ◌||◌, Option, none, some, [],
  ◌∷◌, if◌then◌else◌, ltb, ◌==◌, length, take, arith, inl, inr, ◌⊎◌,
}
use siglatch.M7mux.Packet.{Bytes, UserData, SendPacket, packet_buffer_size}
use siglatch.M7mux.Outbox.{SendBytesPacket}
use siglatch.Codec.Unit.{user_payload_max}
use siglatch.Daemon.Job.{ConnectionJob}

-- The string "daemon".
abbrev pub daemon_label : Bytes
daemon_label = 100 ∷ 97 ∷ 101 ∷ 109 ∷ 111 ∷ 110 ∷ []

-- `SL_KNOCK_RESPONSE_ACTION_ID`.
abbrev pub response_action_id : ℕ
response_action_id = 0

-- `none` is a refusal. The buffer of the address has 64 bytes.
unfoldable pub copy_job_reply_to_send : ConnectionJob → Option SendPacket
copy_job_reply_to_send job =
    if (ltb 0 (length job.response.bytes) && not job.response.allocated)
      || ltb user_payload_max (length job.response.bytes)
    then none
    else some (record {
      trace_id = 0;
      label = daemon_label;
      wire_version = job.wire_version;
      wire_form = job.wire_form;
      received_ms = job.timestamp;
      session_id = job.session_id;
      message_id = (job.message_id + job.fragment_index) % 2 ^ 64;
      stream_id = job.stream_id;
      fragment_index = 0;
      fragment_count = 1;
      timestamp = job.timestamp;
      ip = take 63 job.ip;
      client_port = job.client_port;
      encrypted = job.encrypted;
      wire_auth = job.wire_auth;
      user = some (record {
        user_id = job.request.user_id;
        action_id = response_action_id;
        challenge = job.request.challenge;
        hmac = job.request.hmac;
        payload = job.response.bytes;
      });
    })

-- 1, 0 and -1.
pub data Staged : Type 0 where
  staged : Staged
  unstaged : Staged
  broken : Staged

-- What comes after a job: the next one, or the end of the round with the answer -1.
pub data Turn : Type 0 where
  goes_on : Turn
  gives_up : Turn

module _ {S : Type 0} (flush : S → S × Bool) where
  -- A try, a flush and a second try.
  unfoldable pub stage_flushing : (S → S × Bool) → S → S × Staged
  stage_flushing stage mux =
      let (first, done) = stage mux in
      let (flushed, ok) = flush first in
      let (second, done') = stage flushed in
      if done
      then (first, Staged.staged)
      else if not ok
      then (flushed, Staged.broken)
      else if done'
      then (second, Staged.staged)
      else (second, Staged.unstaged)

  unfoldable pub stage_raw_outbox_reply :
      (S → SendBytesPacket → S × Bool) → S → ConnectionJob → S × Staged
  stage_raw_outbox_reply stage_bytes mux job =
      if not job.response.allocated || (length job.response.bytes == 0)
      then (mux, Staged.unstaged)
      else stage_flushing
          (λ s. stage_bytes s (record {
            trace_id = 0;
            label = daemon_label;
            ip = take 63 job.ip;
            client_port = job.client_port;
            received_ms = job.timestamp;
            bytes = take packet_buffer_size job.response.bytes;
          }))
          mux

  unfoldable pub stage_outbox_reply :
      (S → SendPacket → S × Bool)
      → (S → SendBytesPacket → S × Bool)
      → S
      → ConnectionJob
      → S × Staged
  stage_outbox_reply stage stage_bytes mux job =
      if job.wire_version == 0
      then stage_raw_outbox_reply stage_bytes mux job
      else elim (copy_job_reply_to_send job) [
        | none ↦ (mux, Staged.unstaged)
        | some send ↦ stage_flushing (λ s. stage s send) mux
      ]

  -- What the loop of `drain_jobs_and_flush` does with a job that was consumed.
  unfoldable pub reply_turn :
      (S → SendPacket → S × Bool) → (S → SendBytesPacket → S × Bool) → S → ConnectionJob → S × Turn
  reply_turn stage stage_bytes mux job =
      let (mux', rc) = stage_outbox_reply stage stage_bytes mux job in
      if job.should_reply || ltb 0 (length job.response.bytes)
      then elim rc [
        | staged ↦ (mux', Turn.goes_on)
        | unstaged ↦ (mux', Turn.gives_up)
        | broken ↦ (mux', Turn.gives_up)
      ]
      else (mux, Turn.goes_on)

  -- Where a structured job has a response of more than 199 bytes, which its buffer of 1280 has room for,
  -- nothing is staged and the round ends with -1, whatever the outbox would have answered.
  pub reply_turn-gives_up :
      (stage : S → SendPacket → S × Bool) (stage_bytes : S → SendBytesPacket → S × Bool) (mux : S)
      (job : ConnectionJob)
      → job.wire_version ≢ 0
      → 199 < length job.response.bytes
      → reply_turn stage stage_bytes mux job ≡ (mux, Turn.gives_up)
  unfolding reply_turn stage_outbox_reply copy_job_reply_to_send
  reply_turn-gives_up stage stage_bytes mux job v long = ground arith
