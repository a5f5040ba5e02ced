-- ===== src/Daemon/Access.antt =====
-- src/siglatch/app/daemon/auth.c, policy.c, request.c and payload.c: who may have which action run. Of
-- the lists of the configuration (src/siglatch/app/config/config.c) those entries count that are below
-- their counts. What runs the action, behind `dispatch_action`, is left out: the answer names the call.
pub mod Permitted
mod Tests
use siglatch.Prelude.{
  ℕ, ◌≡◌, Bool, true, false, not, ◌&&◌, Option, none, some, List, [], ◌∷◌, if◌then◌else◌, ltb, ◌==◌,
  length, bytes_eq,
}
use siglatch.M7mux.Packet.{Bytes}
use siglatch.Codec.Exchange.{OpensslSession}
use siglatch.Daemon.Job.{ConnectionJob}
use siglatch.Daemon.Digest.{Primitives, validate_signature}
use siglatch.Policy.Access.{request_ip_allowed}

-- The parts of `siglatch_user` that decide; `has_public_key` says whether `pubkey` is set.
pub record User : Type 0 where
  pub id : ℕ
  pub name : Bytes
  pub enabled : Bool
  pub actions : List Bytes
  pub allowed_ips : List Bytes
  pub has_public_key : Bool
  pub hmac_key : Bytes

-- The parts of `siglatch_action` that decide.
pub record Action : Type 0 where
  pub id : ℕ
  pub name : Bytes
  pub enabled : Bool
  pub enforce_wire_auth : Bool
  pub allowed_ips : List Bytes

-- The parts of `siglatch_server` that decide.
pub record Server : Type 0 where
  pub actions : List Bytes
  pub allowed_ips : List Bytes

-- The parts of `siglatch_config` that decide.
pub record Config : Type 0 where
  pub users : List User
  pub actions : List Action

-- What `consume` comes to: it refuses, calls the handler of raw packets, or dispatches the action.
pub data Consumed : Type 0 where
  refused : Consumed
  unstructured : Consumed
  dispatched : User → Action → Consumed

unfoldable pub user_by_id_from : List User → ℕ → Option User
user_by_id_from [] user_id = none
user_by_id_from (u ∷ users) user_id =
    let rest = user_by_id_from users user_id in
    if u.enabled && (u.id == user_id) then some u else rest

unfoldable pub action_by_id_from : List Action → ℕ → Option Action
action_by_id_from [] action_id = none
action_by_id_from (a ∷ actions) action_id =
    let rest = action_by_id_from actions action_id in if a.id == action_id then some a else rest

-- The loop over the names of actions that a server or a user may have.
unfoldable pub is_listed : List Bytes → Bytes → Bool
is_listed [] action_name = false
is_listed (a ∷ actions) action_name =
    let rest = is_listed actions action_name in if bytes_eq a action_name then true else rest

unfoldable pub action_available : Server → Bytes → Bool
action_available server action_name = is_listed server.actions action_name

unfoldable pub action_available_by_user : Config → ℕ → Bytes → Bool
action_available_by_user config user_id action = elim (user_by_id_from config.users user_id) [
  | none ↦ false
  | some user ↦ is_listed user.actions action
]

-- `hmac_key_len` is 32, the size of the array.
unfoldable pub assign_session_to_user : OpensslSession → User → OpensslSession
assign_session_to_user session user = record session {
  hmac_key = user.hmac_key;
  has_public_key = user.has_public_key;
}

unfoldable pub bind_user_action :
    Config → ConnectionJob → OpensslSession → OpensslSession × Option (User × Action)
bind_user_action config job session = elim (user_by_id_from config.users job.request.user_id) [
  | none ↦ (session, none)
  | some user ↦ elim (action_by_id_from config.actions job.request.action_id) [
    | none ↦ (assign_session_to_user session user, none)
    | some action ↦ (assign_session_to_user session user, some (user, action))
  ]
]

abbrev pub with_wire_auth : ConnectionJob → Bool → ConnectionJob
with_wire_auth job wire_auth = record job { wire_auth = wire_auth }

-- The job, the session and whether the request is authorized.
unfoldable pub authorize :
    Primitives → Config → OpensslSession → ConnectionJob → ConnectionJob × OpensslSession × Bool
authorize prim config session job =
    if job.wire_version == 0
    then (with_wire_auth job true, session, true)
    else elim (user_by_id_from config.users job.request.user_id) [
      | none ↦ (with_wire_auth job false, session, false)
      | some user ↦
          let assigned = assign_session_to_user session user in
          if not (validate_signature prim assigned.hmac_key (with_wire_auth job false))
          then (with_wire_auth job false, assigned, false)
          else (with_wire_auth job true, assigned, true)
    ]

module _ (isspace : ℕ → Bool) (inet_pton : Bytes → Option ℕ) (strtoul : Bytes → ℕ × Bytes) where
  -- The tests behind a refused address only choose the text of the log.
  unfoldable pub enforce : Config → Server → ConnectionJob → User → Action → Bool
  enforce config server job user action =
      if not (action_available server action.name)
      then false
      else if not (action_available_by_user config job.request.user_id action.name)
      then false
      else if not action.enabled
      then false
      else if not job.wire_auth && action.enforce_wire_auth
      then false
      else if not (
          request_ip_allowed isspace inet_pton strtoul server.allowed_ips user.allowed_ips
            action.allowed_ips job.ip)
      then false
      else true

  -- The job and the session that are left behind too.
  unfoldable pub consume :
      Primitives
      → Config
      → Server
      → ConnectionJob
      → OpensslSession
      → ConnectionJob × OpensslSession × Consumed
  consume prim config server job session =
      if ltb 0 (length job.request.payload.bytes) && not job.request.payload.allocated
      then (job, session, refused)
      else if job.wire_version == 0
      then (job, session, unstructured)
      else let (bound, found) = bind_user_action config job session in
        elim found [
          | none ↦ (job, bound, refused)
          | some (user, action) ↦
              let (job', session', authorized) = authorize prim config bound job in
              if not authorized
              then (job', session', refused)
              else if not (enforce config server job' user action)
              then (job', session', refused)
              else (job', session', dispatched user action)
        ]
