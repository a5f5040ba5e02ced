-- ===== src/Daemon/Access/Permitted.antt =====
-- src/siglatch/app/daemon/payload.c: when `consume` dispatches an action.
use siglatch.Prelude.{
  ℕ, ◌≡◌, ◌≢◌, ◌↔◌, refl, Bool, true, false, not, ◌&&◌, Option, some, List, [], ◌∷◌, inl, inr, ◌⊎◌,
  if◌then◌else◌, ltb, length, get_elem?, zero, suc, ap, bytes_eq_iff, bytes_eq, arith, Bool-cases,
  sym, ◌∙◌,
}
use siglatch.M7mux.Packet.{Bytes}
use siglatch.Codec.Exchange.{OpensslSession}
use siglatch.Daemon.Job.{ConnectionJob}
use siglatch.Daemon.Digest.{Primitives, validate_signature, validate_signature_iff, IsSigned}
use siglatch.Daemon.Digest.{job_digest, job_digest_v1, job_digest_v2, job_digest_form1}
use siglatch.Policy.Access.{request_ip_allowed_iff, IsAdmitted}
use siglatch.Daemon.Access.{User, Action, Server, Config, Consumed, user_by_id_from}
use siglatch.Daemon.Access.{
  action_by_id_from, is_listed, action_available, action_available_by_user,
}
use siglatch.Daemon.Access.{assign_session_to_user, bind_user_action, with_wire_auth, authorize}
use siglatch.Daemon.Access.{enforce, consume}

-- One of the names.
abbrev pub IsListed : Bytes → List Bytes → Type 0
IsListed name names = (i : ℕ) × (get_elem? names i ≡ some name)

first_or_later :
    (a : Bytes) (names : List Bytes) (i : ℕ) (name : Bytes)
    → get_elem? (a ∷ names) i ≡ some name
    → (a ≡ name) ⊎ IsListed name names
first_or_later a names zero name g = inl (cc)
first_or_later a names (suc i) name g = inr (i, g)

is_listed_iff :
    (names : List Bytes) (name : Bytes) → (is_listed names name ≡ true) ↔ IsListed name names
unfolding is_listed
is_listed_iff [] name = (λ h. absurd (cc), λ (i, h). absurd (cc))
is_listed_iff (a ∷ names) name = elim (Bool-cases (bytes_eq a name)) [
  | inl e ↦ rw e (λ h. (0, ap some ((bytes_eq_iff a name).0 e)), λ m. refl)
  | inr e ↦
      let (there, back) = is_listed_iff names name in
      rw e (
        λ h. let (i, g) = there h in (suc i, g),
        λ (i, g). elim (first_or_later a names i name g) [
          | inl same ↦ absurd (ground (arith, e, same, bytes_eq_iff a name))
          | inr (j, later) ↦ back (j, later)
        ],
      )
]

-- Marking a job says nothing about its digest.
job_digest-with_wire_auth :
    (prim : Primitives) (job : ConnectionJob) (b : Bool)
    → job_digest prim (with_wire_auth job b) ≡ job_digest prim job
unfolding job_digest job_digest_v1 job_digest_v2 job_digest_form1
job_digest-with_wire_auth prim job b = refl

-- A user that is found is enabled and has the id.
user_by_id_from-some :
    (users : List User) (user_id : ℕ) (user : User)
    → user_by_id_from users user_id ≡ some user
    → (user.enabled ≡ true) × (user.id ≡ user_id)
unfolding user_by_id_from
user_by_id_from-some [] user_id user h = absurd (cc)
user_by_id_from-some (u ∷ users) user_id user h =
    ground (arith, user_by_id_from-some users user_id user)

action_by_id_from-some :
    (actions : List Action) (action_id : ℕ) (action : Action)
    → action_by_id_from actions action_id ≡ some action
    → action.id ≡ action_id
unfolding action_by_id_from
action_by_id_from-some [] action_id action h = absurd (cc)
action_by_id_from-some (a ∷ actions) action_id action h =
    ground (arith, action_by_id_from-some actions action_id action)

-- Four tests, one after the other.
tests_iff :
    (x y z w : Bool)
    → ((if not x
          then false
          else if not y
          then false
          else if not z
          then false
          else if not w
          then false
          else true)
        ≡ true)
      ↔ ((x ≡ true) × (y ≡ true) × (z ≡ true) × (w ≡ true))
tests_iff x y z w = ground arith

two_tests :
    (x y : Bool) (user : User) (action : Action)
    → (if not x
        then Consumed.refused
        else if not y
        then Consumed.refused
        else Consumed.dispatched user action)
      ≡ Consumed.dispatched user action
    → (x ≡ true) × (y ≡ true)
two_tests x y user action h = ground arith

module _ (isspace : ℕ → Bool) (inet_pton : Bytes → Option ℕ) (strtoul : Bytes → ℕ × Bytes)
    (prim : Primitives) (config : Config) (server : Server) (job : ConnectionJob) where
  -- What a structured request needs for its action to run.
  pub record IsPermitted (user : User) (action : Action) : Type 0 where
    pub user_found : user_by_id_from config.users job.request.user_id ≡ some user
    pub action_found : action_by_id_from config.actions job.request.action_id ≡ some action
    pub user_enabled : user.enabled ≡ true
    pub user_named : user.id ≡ job.request.user_id
    pub action_named : action.id ≡ job.request.action_id
    pub signed : IsSigned prim user.hmac_key job
    pub on_server : IsListed action.name server.actions
    pub by_user : IsListed action.name user.actions
    pub enabled : action.enabled ≡ true
    pub has_ip : job.ip ≢ []
    pub from_server : IsAdmitted isspace inet_pton strtoul server.allowed_ips job.ip
    pub from_user : IsAdmitted isspace inet_pton strtoul user.allowed_ips job.ip
    pub from_action : IsAdmitted isspace inet_pton strtoul action.allowed_ips job.ip

  abbrev Listened : ConnectionJob → User → Action → Type 0
  Listened j user action =
      IsListed action.name server.actions
      × IsListed action.name user.actions
      × (action.enabled ≡ true)
      × (j.ip ≢ [])
      × IsAdmitted isspace inet_pton strtoul server.allowed_ips j.ip
      × IsAdmitted isspace inet_pton strtoul user.allowed_ips j.ip
      × IsAdmitted isspace inet_pton strtoul action.allowed_ips j.ip

  enforce_iff :
      (user : User) (action : Action)
      → user_by_id_from config.users job.request.user_id ≡ some user
      → (enforce isspace inet_pton strtoul config server (with_wire_auth job true) user action
          ≡ true)
        ↔ Listened job user action
  unfolding enforce action_available action_available_by_user
  enforce_iff user action u =
      let (s, s') = is_listed_iff server.actions action.name in
      let (v, v') = is_listed_iff user.actions action.name in
      let (p, p') =
        request_ip_allowed_iff isspace inet_pton strtoul server.allowed_ips user.allowed_ips
          action.allowed_ips job.ip in
      rw (u, action_available_by_user)
        (
          λ h.
              let (x, y, z, w) = (tests_iff _ _ _ _).0 h in
              let (d, e, f, g) = p w in (s x, v y, z, d, e, f, g),
          λ (a, b, c, d, e, f, g). (tests_iff _ _ _ _).1 (s' a, v' b, c, p' (d, e, f, g)),
        )

  -- The payload is there.
  abbrev pub HasPayload : Type 0
  HasPayload = (job.request.payload.bytes ≡ []) ⊎ (job.request.payload.allocated ≡ true)

  payload-tested :
      HasPayload
      → (ltb 0 (length job.request.payload.bytes) && not job.request.payload.allocated) ≡ false
  payload-tested h = elim h [ inl e ↦ rw e refl | inr e ↦ rw e (ground arith) ]

  consume-found :
      (session : OpensslSession) (user : User) (action : Action)
      → job.wire_version ≢ 0
      → HasPayload
      → user_by_id_from config.users job.request.user_id ≡ some user
      → action_by_id_from config.actions job.request.action_id ≡ some action
      → (consume isspace inet_pton strtoul prim config server job session).2 ≡ (
          if not (validate_signature prim user.hmac_key (with_wire_auth job false))
          then Consumed.refused
          else if not (
              enforce isspace inet_pton strtoul config server (with_wire_auth job true) user action)
          then Consumed.refused
          else Consumed.dispatched user action)
  unfolding consume bind_user_action authorize assign_session_to_user
  consume-found session user action v filled u a = ground (arith, payload-tested filled)

  consume-missing :
      (session : OpensslSession) (user : User) (action : Action)
      → job.wire_version ≢ 0
      → (consume isspace inet_pton strtoul prim config server job session).2
        ≡ Consumed.dispatched user action
      → (user_by_id_from config.users job.request.user_id ≡ some user)
        × (action_by_id_from config.actions job.request.action_id ≡ some action)
  unfolding consume bind_user_action authorize assign_session_to_user
  consume-missing session user action v h = ground arith

  -- The action of a structured request that carries its payload is dispatched exactly if its user, who is
  -- enabled, and its action are found by their ids, it is signed with the user's key, the server and the
  -- user may have the action, which is enabled, and its address is admitted by the three lists. The
  -- `enforce_wire_auth` of an action and what the session held before do not matter.
  pub consume-IsPermitted :
      (session : OpensslSession) (user : User) (action : Action)
      → job.wire_version ≢ 0
      → HasPayload
      → ((consume isspace inet_pton strtoul prim config server job session).2
          ≡ Consumed.dispatched user action)
        ↔ IsPermitted user action
  consume-IsPermitted session user action v filled = (
    λ h.
        let (u, a) = consume-missing session user action v h in
        let (signed, allowed) =
          two_tests _ _ user action (sym (consume-found session user action v filled u a) ∙ h) in
        let (digest, d, m, l) =
          (validate_signature_iff prim user.hmac_key (with_wire_auth job false)).0 signed in
        let (s, b, e, i, x, y, z) = (enforce_iff user action u).0 allowed in
        record {
          user_found = u;
          action_found = a;
          user_enabled = (user_by_id_from-some config.users job.request.user_id user u).0;
          user_named = (user_by_id_from-some config.users job.request.user_id user u).1;
          action_named = action_by_id_from-some config.actions job.request.action_id action a;
          signed = (digest, sym (job_digest-with_wire_auth prim job false) ∙ d, m, l);
          on_server = s;
          by_user = b;
          enabled = e;
          has_ip = i;
          from_server = x;
          from_user = y;
          from_action = z;
        },
    λ p.
        let (digest, d, m, l) = p.signed in
        let signed =
          (validate_signature_iff prim user.hmac_key (with_wire_auth job false)).1
            (digest, job_digest-with_wire_auth prim job false ∙ d, m, l) in
        let allowed = (enforce_iff user action p.user_found).1 (
          p.on_server, p.by_user, p.enabled, p.has_ip, p.from_server, p.from_user, p.from_action,
        ) in
        consume-found session user action v filled p.user_found p.action_found
        ∙ (rw (signed, allowed) refl),
  )
