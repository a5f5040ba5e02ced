-- ===== src/M7mux/Session.antt =====
-- src/stdlib/protocol/udp/m7mux/session/session.c: which session an incoming unit belongs to.
-- The session that a pointer leads to is an index into the table with what stands there. The clock
-- is an argument of `ingest`.
pub mod Ids
pub mod Inv
pub mod Client
pub mod Expiry
mod Tests
use siglatch.Prelude.{
  ℕ, ◌+◌, ◌-◌, ◌%◌, ◌^◌, Bool, true, false, ◌&&◌, ◌||◌, not, Option, none, some, List, [], ◌∷◌,
  if◌then◌else◌, ltb, leb, ◌==◌, set, replicate, find_slot, take, bytes_eq,
}
use siglatch.M7mux.Packet.{Bytes, RecvPacket, Control}

-- `M7MuxSession`.
pub record Session : Type 0 where
  pub session_id : ℕ
  pub client_session_id : ℕ
  pub last_active_ms : ℕ
  pub expires_at_ms : ℕ
  pub wire_version : ℕ
  pub wire_form : ℕ
  pub ip : Bytes
  pub client_port : ℕ
  pub encrypted : Bool
  pub active : Bool

-- `M7MuxSessionState`.
pub record SessionState : Type 0 where
  pub sessions : List Session
  pub session_count : ℕ
  pub next_session_id : ℕ

unfoldable pub session_capacity : ℕ
session_capacity = 64

abbrev pub session_timeout_ms : ℕ
session_timeout_ms = 30000

abbrev pub zero_session : Session
zero_session = record {
  session_id = 0;
  client_session_id = 0;
  last_active_ms = 0;
  expires_at_ms = 0;
  wire_version = 0;
  wire_form = 0;
  ip = [];
  client_port = 0;
  encrypted = false;
  active = false;
}

unfoldable pub state_init : SessionState
state_init = record {
  sessions = replicate session_capacity zero_session;
  session_count = 0;
  next_session_id = 1;
}

unfoldable pub state_reset : SessionState → SessionState
state_reset state = state_init

abbrev pub is_session : ℕ → Session → Bool
is_session session_id s = s.active && s.session_id == session_id

unfoldable pub find : List Session → ℕ → Option (ℕ × Session)
find sessions session_id =
    if session_id == 0 then none else find_slot (is_session session_id) sessions

abbrev pub is_client_session : ℕ → ℕ → ℕ → Session → Bool
is_client_session client_session_id wire_version wire_form s =
    s.active
    && s.client_session_id == client_session_id
    && s.wire_version == wire_version
    && s.wire_form == wire_form

unfoldable pub find_by_client_session : List Session → ℕ → ℕ → ℕ → Option (ℕ × Session)
find_by_client_session sessions client_session_id wire_version wire_form =
    if client_session_id == 0
    then none
    else find_slot (is_client_session client_session_id wire_version wire_form) sessions

-- `strncmp` over the 64 bytes of the buffers.
abbrev pub is_raw_from : Bytes → Session → Bool
is_raw_from ip s = s.active && s.wire_version == 0 && bytes_eq (take 64 s.ip) (take 64 ip)

unfoldable pub find_raw_by_ip : List Session → Bytes → Option (ℕ × Session)
find_raw_by_ip sessions [] = none
find_raw_by_ip sessions (c ∷ cs) = find_slot (is_raw_from (c ∷ cs)) sessions

-- The milliseconds are `uint64_t`.
unfoldable pub touch : Session → ℕ → Session
touch s now_ms = record s {
  last_active_ms = now_ms;
  expires_at_ms = (now_ms + session_timeout_ms) % 2 ^ 64;
}

-- `i` is the slot of `s`.
unfoldable pub clear : SessionState → ℕ → Session → SessionState
clear state i s =
    if s.active
    then record state {
      sessions = set state.sessions i zero_session;
      session_count = state.session_count - 1;
    }
    else state

-- A known session takes the packet's transport data; the 64th byte of the address is cut off.
unfoldable pub refresh : Session → RecvPacket → Session
refresh s normal = record s {
  wire_version = normal.wire_version;
  wire_form = normal.wire_form;
  ip = take 63 normal.ip;
  client_port = normal.client_port;
  encrypted = normal.encrypted;
}

-- The same for a raw session, whose address stays.
unfoldable pub refresh_raw : Session → RecvPacket → Session
refresh_raw s normal = record s {
  client_port = normal.client_port;
  encrypted = normal.encrypted;
  wire_version = normal.wire_version;
  wire_form = normal.wire_form;
}

-- `next_session_id++`, and past the new session's id if that is not below.
unfoldable pub bump_next : ℕ → ℕ → ℕ
bump_next session_id next = if leb next session_id then (session_id + 1) % 2 ^ 64 else next

-- The id of a new session and the counter after it: a client-owned session and a packet without an id
-- get the counter's.
unfoldable pub assign_id : Bool → ℕ → ℕ → ℕ × ℕ
assign_id client_owned session_id next =
    if client_owned || session_id == 0
    then (next, bump_next next ((next + 1) % 2 ^ 64))
    else (session_id, bump_next session_id next)

unfoldable pub new_session : Bool → ℕ → RecvPacket → Session
new_session client_owned id normal = record {
  session_id = id;
  client_session_id =
      if client_owned then (if normal.session_id == 0 then id else normal.session_id) else 0;
  last_active_ms = 0;
  expires_at_ms = 0;
  wire_version = normal.wire_version;
  wire_form = normal.wire_form;
  ip = take 63 normal.ip;
  client_port = normal.client_port;
  encrypted = normal.encrypted;
  active = true;
}

-- What `m7mux_session_register` makes: the state, the packet, and the session with its slot.
pub record Registered : Type 0 where
  pub state : SessionState
  pub normal : RecvPacket
  pub slot : ℕ
  pub session : Session

-- The loop that opens a session in the first free slot.
unfoldable pub open_session : SessionState → Bool → RecvPacket → Option Registered
open_session state client_owned normal =
    elim (find_slot (λ (s : Session). not s.active) state.sessions) [
      | none ↦ none
      | some (i, free) ↦
          let (id, next) = assign_id client_owned normal.session_id state.next_session_id in
          let s = new_session client_owned id normal in
          some (record {
            state = record state {
              sessions = set state.sessions i s;
              session_count = (state.session_count + 1) % 2 ^ 64;
              next_session_id = next;
            };
            normal = if client_owned then record normal { session_id = id } else normal;
            slot = i;
            session = s;
          })
    ]

abbrev pub known : SessionState → RecvPacket → ℕ → Session → Registered
known state normal i s = record {
  state = record state { sessions = set state.sessions i s };
  normal = normal;
  slot = i;
  session = s;
}

-- The lookup by id: by the client's where the session is the client's, else by the server's.
unfoldable pub register_by_id : SessionState → Bool → RecvPacket → Option Registered
register_by_id state true normal =
    elim (find_by_client_session state.sessions normal.session_id normal.wire_version
      normal.wire_form) [
        | none ↦ none
        | some (i, s) ↦
            some (known state (record normal { session_id = s.session_id }) i (refresh s normal))
      ]
register_by_id state false normal = elim (find state.sessions normal.session_id) [
  | none ↦ none
  | some (i, s) ↦ some (known state normal i (refresh s normal))
]

unfoldable pub register_raw : SessionState → RecvPacket → Option Registered
register_raw state normal =
    if normal.wire_version == 0
    then elim (find_raw_by_ip state.sessions normal.ip) [
      | none ↦ none
      | some (i, s) ↦ some (known state normal i (refresh_raw s normal))
    ]
    else none

unfoldable pub register : SessionState → Bool → RecvPacket → Option Registered
register state client_owned normal = elim (register_by_id state client_owned normal) [
  | some r ↦ some r
  | none ↦ elim (register_raw state normal) [
    | some r ↦ some r
    | none ↦ open_session state client_owned normal
  ]
]

-- A unit with no session id, or of a client's session, takes the id of the session.
unfoldable pub anchor : Bool → RecvPacket → Registered → RecvPacket
anchor client_owned normal r = record (r.normal) {
  session_id =
      if client_owned || normal.session_id == 0 then r.session.session_id else r.normal.session_id;
  synthetic_session = normal.session_id == 0;
}

-- The state and, unless all slots are taken, the packet with its session.
unfoldable pub ingest_as : SessionState → Bool → RecvPacket → ℕ → SessionState × Option RecvPacket
ingest_as state client_owned normal now_ms = elim (register state client_owned normal) [
  | none ↦ (state, none)
  | some r ↦ (
    record (r.state) { sessions = set r.state.sessions r.slot (touch r.session now_ms) },
    some (anchor client_owned normal r),
  )
]

unfoldable pub ingest : SessionState → Control → RecvPacket → ℕ → SessionState × Option RecvPacket
ingest state control normal now_ms =
    ingest_as state (not (control.session_by_client == 0)) normal now_ms

unfoldable pub release : SessionState → ℕ → SessionState × Bool
release state session_id = elim (find state.sessions session_id) [
  | none ↦ (state, false)
  | some (i, s) ↦ (clear state i s, true)
]

unfoldable pub is_stale : ℕ → Session → Bool
is_stale now_ms s = s.active && not (s.expires_at_ms == 0) && leb s.expires_at_ms now_ms

-- The rest of the table, the count, and how many sessions were cleared.
unfoldable pub expire_sessions : ℕ → List Session → ℕ → List Session × ℕ × ℕ
expire_sessions now_ms [] count = ([], count, 0)
expire_sessions now_ms (s ∷ sessions) count =
    let (rest, count', expired) =
      expire_sessions now_ms sessions (if is_stale now_ms s then count - 1 else count) in
    (
      (if is_stale now_ms s then zero_session else s) ∷ rest,
      count',
      if is_stale now_ms s then expired + 1 else expired,
    )

unfoldable pub expire : SessionState → ℕ → SessionState × ℕ
expire state now_ms =
    let (sessions, count, expired) = expire_sessions now_ms state.sessions state.session_count in
    (record state { sessions = sessions; session_count = count }, expired)
