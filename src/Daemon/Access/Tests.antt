-- ===== src/Daemon/Access/Tests.antt =====
-- src/siglatch/app/daemon/payload.c: a request that is signed, one that is not, and the theorem at the
-- first, with a hash and a signature that suffice for them.
use siglatch.Prelude.{
  ℕ, ◌≡◌, ◌↔◌, refl, Bool, true, false, Option, none, some, [], ◌∷◌, inr, length, bytes_eq,
  replicate,
}
use siglatch.M7mux.Packet.{Bytes}
use siglatch.Codec.Exchange.{OpensslSession}
use siglatch.Daemon.Job.{ConnectionJob, zero_job, zero_request}
use siglatch.Daemon.Digest.{
  Primitives, job_digest, job_digest_v1, generate, digest_array, validate, validate_signature,
}
use siglatch.Daemon.Access.{
  User, Action, Server, Config, Consumed, user_by_id_from, action_by_id_from,
}
use siglatch.Daemon.Access.{is_listed, action_available, action_available_by_user, bind_user_action}
use siglatch.Daemon.Access.{assign_session_to_user, authorize, enforce, consume}
use siglatch.Policy.Access.{
  request_ip_allowed, server_ip_allowed, user_ip_allowed, action_ip_allowed,
}
use siglatch.Daemon.Access.Permitted.{IsPermitted, consume-IsPermitted}

abbrev blank : ℕ → Bool
blank c = false

abbrev address : Bytes → Option ℕ
address text = none

abbrev number : Bytes → ℕ × Bytes
number text = (0, text)

-- The digest is 32 times the length of the text, and the signature of a digest is the key.
abbrev prim : Primitives
prim = record {
  sha256 = λ bytes. some (replicate 32 (length bytes));
  hmac_sha256 = λ key digest. some key;
  stored = λ n value. replicate n value;
}

abbrev open_door : Bytes
open_door = 111 ∷ 112 ∷ []

abbrev ann : User
ann = record {
  id = 7;
  name = 97 ∷ [];
  enabled = true;
  actions = open_door ∷ [];
  allowed_ips = [];
  has_public_key = true;
  hmac_key = replicate 32 9;
}

abbrev opening : Action
opening = record {
  id = 3;
  name = open_door;
  enabled = true;
  enforce_wire_auth = true;
  allowed_ips = [];
}

abbrev house : Server
house = record { actions = open_door ∷ []; allowed_ips = [] }

abbrev config : Config
config = record { users = ann ∷ []; actions = opening ∷ [] }

abbrev fresh : OpensslSession
fresh = record { id = 1; has_public_key = false; hmac_key = [] }

abbrev knock_with : Bytes → ConnectionJob
knock_with signature = record zero_job {
  wire_version = 1;
  timestamp = 100;
  ip = 49 ∷ [];
  request = record zero_request {
    user_id = 7;
    action_id = 3;
    hmac = signature;
    payload = record { bytes = 104 ∷ 105 ∷ []; allocated = true; cap = 1280 };
  };
}

consume-signed :
    (consume blank address number prim config house (knock_with (replicate 32 9)) fresh).2
    ≡ Consumed.dispatched ann opening
unfolding consume bind_user_action authorize assign_session_to_user enforce action_available
    action_available_by_user user_by_id_from action_by_id_from is_listed bytes_eq validate_signature
    validate job_digest job_digest_v1 generate digest_array request_ip_allowed server_ip_allowed
    user_ip_allowed action_ip_allowed
consume-signed = refl

consume-forged :
    (consume blank address number prim config house (knock_with (replicate 32 8)) fresh).2
    ≡ Consumed.refused
unfolding consume bind_user_action authorize assign_session_to_user enforce action_available
    action_available_by_user user_by_id_from action_by_id_from is_listed bytes_eq validate_signature
    validate job_digest job_digest_v1 generate digest_array request_ip_allowed server_ip_allowed
    user_ip_allowed action_ip_allowed
consume-forged = refl

consume-IsPermitted_example :
    ((consume blank address number prim config house (knock_with (replicate 32 9)) fresh).2
      ≡ Consumed.dispatched ann opening)
    ↔ IsPermitted blank address number prim config house (knock_with (replicate 32 9)) ann opening
consume-IsPermitted_example =
    consume-IsPermitted blank address number prim config house (knock_with (replicate 32 9)) fresh
      ann opening (λ e. absurd (cc)) (inr refl)
