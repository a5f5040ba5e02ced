-- ===== src/Daemon/Digest.antt =====
-- src/shared/knock/digest.c and the signatures of src/siglatch/app/inbound/crypto/crypto.c.
-- SHA-256 and HMAC are parameters, which answer `none` where OpenSSL reports a failure; `stored n v` is
-- how the machine keeps the number `v` in `n` bytes, which the digests read from memory.
use siglatch.Prelude.{
  ℕ, ◌%◌, ◌^◌, ◌≡◌, refl, ◌↔◌, ◌++◌, Bool, true, false, not, ◌||◌, Option, none, some, inl, inr,
  if◌then◌else◌, ltb, ◌==◌, length, bytes_eq, bytes_eq_iff, Option-cases, arith,
}
use siglatch.M7mux.Packet.{Bytes}
use siglatch.Codec.Unit.{NormalizedUnit, zero_unit, normalized_payload_max}
use siglatch.Codec.Sealed.{form1_id, Format}
use siglatch.Codec.V3
use siglatch.Codec.V4
use siglatch.Daemon.Job.{ConnectionJob}

-- What `digest.c` uses of OpenSSL and of the machine.
pub record Primitives : Type 0 where
  pub sha256 : Bytes → Option Bytes
  pub hmac_sha256 : Bytes → Bytes → Option Bytes
  pub stored : ℕ → ℕ → Bytes

-- `KnockPacket`, less its signature; the payload's bytes carry `payload_len`.
pub record KnockPacket : Type 0 where
  pub version : ℕ
  pub timestamp : ℕ
  pub user_id : ℕ
  pub action_id : ℕ
  pub challenge : ℕ
  pub payload : Bytes

-- The parts of `SharedKnockCodecV2Form1Packet` that its digest reads.
pub record Form1Packet : Type 0 where
  pub version : ℕ
  pub timestamp : ℕ
  pub user_id : ℕ
  pub action_id : ℕ
  pub challenge : ℕ
  pub payload : Bytes

abbrev pub v1_version : ℕ
v1_version = 1

abbrev pub v2_wire_version : ℕ
v2_wire_version = 0x00020000

-- The payload of a `KnockPacket`.
abbrev pub knock_payload_max : ℕ
knock_payload_max = 199

-- `SHARED_KNOCK_CODEC_V2_FORM1_PAYLOAD_MAX`.
abbrev pub v2_payload_max : ℕ
v2_payload_max = 191

module _ (prim : Primitives) where
  -- `siglatch_openssl_digest_array`, on the bytes of its items.
  unfoldable pub digest_array : Bytes → Option Bytes
  digest_array bytes = elim (prim.sha256 bytes) [
    | none ↦ none
    | some digest ↦ if not (length digest == 32) then none else some digest
  ]

  unfoldable pub generate : KnockPacket → Option Bytes
  generate pkt =
      if ltb knock_payload_max (length pkt.payload)
      then none
      else digest_array (
          prim.stored 1 pkt.version
          ++ (prim.stored 4 pkt.timestamp
              ++ (prim.stored 2 pkt.user_id
                  ++ (prim.stored 1 pkt.action_id
                      ++ (prim.stored 4 pkt.challenge
                          ++ (prim.stored 2 (length pkt.payload) ++ pkt.payload))))))

  unfoldable pub generate_v2_form1 : Form1Packet → Option Bytes
  generate_v2_form1 pkt =
      if ltb v2_payload_max (length pkt.payload)
      then none
      else digest_array (
          prim.stored 4 pkt.version
          ++ (prim.stored 4 pkt.timestamp
              ++ (prim.stored 2 pkt.user_id
                  ++ (prim.stored 1 pkt.action_id
                      ++ (prim.stored 4 pkt.challenge
                          ++ (prim.stored 2 (length pkt.payload) ++ pkt.payload))))))

  -- `generate_v3_form1` and `generate_v4_form1`, which differ in the version that they ask for.
  unfoldable pub generate_form1 : Format → NormalizedUnit → Option Bytes
  generate_form1 format normal =
      if not (normal.wire_version == format.wire_version)
      then none
      else if not (normal.wire_form == form1_id)
      then none
      else if ltb normalized_payload_max (length normal.payload)
      then none
      else digest_array (
          prim.stored 4 normal.wire_version
          ++ (prim.stored 1 normal.wire_form
              ++ (prim.stored 4 normal.timestamp
                  ++ (prim.stored 2 normal.user_id
                      ++ (prim.stored 1 normal.action_id
                          ++ (prim.stored 4 normal.challenge
                              ++ (prim.stored 8 (length normal.payload) ++ normal.payload)))))))

  unfoldable pub validate : Bytes → Bytes → Bytes → Bool
  validate hmac_key digest signature = elim (prim.hmac_sha256 hmac_key digest) [
    | none ↦ false
    | some computed ↦ if not (length computed == 32) then false else bytes_eq signature computed
  ]

  -- The digest of a job that `validate_signature_v1` computes.
  unfoldable pub job_digest_v1 : ConnectionJob → Option Bytes
  job_digest_v1 job =
      if ltb knock_payload_max (length job.request.payload.bytes)
      then none
      else generate (record {
        version = job.wire_version % 2 ^ 8;
        timestamp = job.timestamp;
        user_id = job.request.user_id;
        action_id = job.request.action_id;
        challenge = job.request.challenge;
        payload = job.request.payload.bytes;
      })

  unfoldable pub job_digest_v2 : ConnectionJob → Option Bytes
  job_digest_v2 job =
      if ltb v2_payload_max (length job.request.payload.bytes)
      then none
      else generate_v2_form1 (record {
        version = job.wire_version;
        timestamp = job.timestamp;
        user_id = job.request.user_id;
        action_id = job.request.action_id;
        challenge = job.request.challenge;
        payload = job.request.payload.bytes;
      })

  -- That of `validate_signature_v3` and of `validate_signature_v4`.
  unfoldable pub job_digest_form1 : Format → ConnectionJob → Option Bytes
  job_digest_form1 format job =
      if ltb normalized_payload_max (length job.request.payload.bytes)
      then none
      else generate_form1 format (record zero_unit {
        wire_version = job.wire_version;
        wire_form = job.wire_form;
        timestamp = job.timestamp;
        user_id = job.request.user_id;
        action_id = job.request.action_id;
        challenge = job.request.challenge;
        payload = job.request.payload.bytes;
        hmac = job.request.hmac;
      })

  -- The cases of `validate_signature`.
  unfoldable pub job_digest : ConnectionJob → Option Bytes
  job_digest job =
      if (job.wire_version == v1_version) || (job.wire_version == 0)
      then job_digest_v1 job
      else if job.wire_version == v2_wire_version
      then job_digest_v2 job
      else if job.wire_version == V3.format.wire_version
      then job_digest_form1 V3.format job
      else if job.wire_version == V4.format.wire_version
      then job_digest_form1 V4.format job
      else none

  unfoldable pub validate_signature : Bytes → ConnectionJob → Bool
  validate_signature hmac_key job = elim (job_digest job) [
    | none ↦ false
    | some digest ↦ validate hmac_key digest job.request.hmac
  ]

  -- The job carries the HMAC of its digest under the key.
  abbrev pub IsSigned : Bytes → ConnectionJob → Type 0
  IsSigned hmac_key job =
      (digest : Bytes) × (job_digest job ≡ some digest)
      × (prim.hmac_sha256 hmac_key digest ≡ some job.request.hmac)
      × (length job.request.hmac ≡ 32)

  validate_iff :
      (hmac_key digest signature : Bytes)
      → (validate hmac_key digest signature ≡ true)
        ↔ ((prim.hmac_sha256 hmac_key digest ≡ some signature) × (length signature ≡ 32))
  unfolding validate
  validate_iff hmac_key digest signature = elim (Option-cases (prim.hmac_sha256 hmac_key digest)) [
    | inl e ↦ ground (arith, e)
    | inr (computed, e) ↦ ground (arith, e, bytes_eq_iff signature computed)
  ]

  pub validate_signature_iff :
      (hmac_key : Bytes) (job : ConnectionJob)
      → (validate_signature hmac_key job ≡ true) ↔ IsSigned hmac_key job
  unfolding validate_signature
  validate_signature_iff hmac_key job = elim (Option-cases (job_digest job)) [
    | inl e ↦ (λ h. absurd (cc), λ (digest, d, s, l). absurd (cc))
    | inr (digest, e) ↦
        let (there, back) = validate_iff hmac_key digest job.request.hmac in
        rw (e, validate_signature)
          (λ h. let (s, l) = there h in (digest, refl, s, l), λ (other, d, s, l). back (cc, l))
  ]
