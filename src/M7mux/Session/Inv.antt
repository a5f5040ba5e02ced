-- ===== src/M7mux/Session/Inv.antt =====
-- src/stdlib/protocol/udp/m7mux/session/session.c: the session table is sound, whatever calls it takes.
use siglatch.Prelude.{
  ℕ, zero, suc, replicate, get_elem?-set_self, get_elem?-lt, ◌+◌, ◌^◌, ◌≤◌, ◌<◌, ◌≡◌, ◌≢◌, refl,
  sym, subst, ◌∙◌, Bool, true, false, not, inl, inr, Option, none, some, List, [], ◌∷◌, ◌==◌, set,
  get_elem?, length, length-set, length-replicate, find_slot, find_slot-some, find_slot-none,
  count_if, count_if-set, count_if-le-length, arith, Bool-cases, Option-cases,
}
use siglatch.M7mux.Packet.{Bytes, RecvPacket, Control}
use siglatch.M7mux.Session.Ids.{is_active, HasIds, rewrite-HasIds, add-HasIds}
use siglatch.M7mux.Session.{
  Session, SessionState, zero_session, state_init, session_capacity, is_session, find,
  find_by_client_session, is_client_session, find_raw_by_ip, is_raw_from, touch, clear, refresh,
  refresh_raw, bump_next, assign_id, new_session, Registered, open_session, known, register_by_id,
  register_raw, register, ingest_as, ingest, release,
}

-- The table has its 64 slots, `session_count` is the number of active sessions, and their ids are
-- positive, below the counter and distinct.
pub record IsSound (state : SessionState) : Type 0 where
  pub slots : length state.sessions ≡ 64
  pub counted : state.session_count ≡ count_if is_active state.sessions
  pub positive : 0 < state.next_session_id
  pub ids : HasIds state.sessions state.next_session_id

pub state_init-IsSound : IsSound state_init
unfolding state_init session_capacity count_if
state_init-IsSound = record {
  slots = length-replicate 64 zero_session;
  counted = refl;
  positive = omega arith;
  ids = record {
    below = λ i s g a. absurd (empty 64 i s g a);
    unique = λ i j s t g h a b e. absurd (empty 64 i s g a);
  };
}
  where
    empty :
        (n i : ℕ) (s : Session)
        → get_elem? (replicate n zero_session) i ≡ some s
        → s.active ≡ true
        → ⊥
    empty zero i s g a = cc
    empty (suc n) zero s g a = ground arith
    empty (suc n) (suc i) s g a = empty n i s g a

-- A session that is written over by itself, with other data.
pub replace-IsSound :
    (state : SessionState) (i : ℕ) (s s' : Session)
    → get_elem? state.sessions i ≡ some s
    → s'.active ≡ s.active
    → s'.session_id ≡ s.session_id
    → IsSound state
    → IsSound (record state { sessions = set state.sessions i s' })
replace-IsSound state i s s' g a n v = record {
  slots = length-set state.sessions i s' ∙ v.slots;
  counted = ground (arith, count_if-set is_active state.sessions i s s' g, v.counted);
  positive = v.positive;
  ids = rewrite-HasIds state.sessions state.next_session_id i s s' g (λ h. (sym a ∙ h, n)) v.ids;
}

pub clear-IsSound :
    (state : SessionState) (i : ℕ) (s : Session)
    → get_elem? state.sessions i ≡ some s
    → IsSound state
    → IsSound (clear state i s)
unfolding clear
clear-IsSound state i s g v = elim (Bool-cases s.active) [
  | inr idle ↦ rw (idle, clear) v
  | inl busy ↦
      rw (busy, clear)
        (record {
          slots = length-set state.sessions i zero_session ∙ v.slots;
          counted =
              ground (arith, count_if-set is_active state.sessions i s zero_session g, v.counted);
          positive = v.positive;
          ids =
              rewrite-HasIds state.sessions state.next_session_id i s zero_session g
                (λ h. absurd (cc)) v.ids;
        })
]

-- A sound state, and in it the session that was found or made, active in its slot.
pub record IsAnchored (r : Registered) : Type 0 where
  pub sound : IsSound r.state
  pub there : get_elem? r.state.sessions r.slot ≡ some r.session
  pub active : r.session.active ≡ true

known-IsAnchored :
    (state : SessionState) (normal : RecvPacket) (i : ℕ) (s s' : Session)
    → get_elem? state.sessions i ≡ some s
    → s.active ≡ true
    → s'.active ≡ s.active
    → s'.session_id ≡ s.session_id
    → IsSound state
    → IsAnchored (known state normal i s')
known-IsAnchored state normal i s s' g a a' n v = record {
  sound = replace-IsSound state i s s' g a' n v;
  there = get_elem?-set_self state.sessions i s' (get_elem?-lt state.sessions i s g);
  active = a' ∙ a;
}

abbrev pub Anchors : Option Registered → Type 0
Anchors none = Unit
Anchors (some r) = IsAnchored r

pub find-some :
    (sessions : List Session) (id i : ℕ) (s : Session)
    → find sessions id ≡ some (i, s)
    → (get_elem? sessions i ≡ some s) × (s.active ≡ true) × (s.session_id ≡ id)
unfolding find
find-some sessions id i s h = ground (arith, find_slot-some (is_session id) sessions i s)

find_by_client_session-some :
    (sessions : List Session) (id version form i : ℕ) (s : Session)
    → find_by_client_session sessions id version form ≡ some (i, s)
    → (get_elem? sessions i ≡ some s) × (s.active ≡ true)
unfolding find_by_client_session
find_by_client_session-some sessions id version form i s h =
    ground (arith, find_slot-some (is_client_session id version form) sessions i s)

find_raw_by_ip-some :
    (sessions : List Session) (ip : Bytes) (i : ℕ) (s : Session)
    → find_raw_by_ip sessions ip ≡ some (i, s)
    → (get_elem? sessions i ≡ some s) × (s.active ≡ true)
unfolding find_raw_by_ip
find_raw_by_ip-some sessions [] i s h = absurd (cc)
find_raw_by_ip-some sessions (c ∷ cs) i s h =
    ground (arith, find_slot-some (is_raw_from (c ∷ cs)) sessions i s)

-- An id that `find` does not know is the id of no active session.
find-none :
    (sessions : List Session) (id k : ℕ) (t : Session)
    → find sessions id ≡ none
    → id ≢ 0
    → get_elem? sessions k ≡ some t
    → t.active ≡ true
    → t.session_id ≢ id
unfolding find
find-none sessions id k t h nz g a = ground (arith, find_slot-none (is_session id) sessions k t)

module _ (state : SessionState) (normal : RecvPacket) (v : IsSound state) where
  register_by_id-Anchors :
      (client_owned : Bool) → Anchors (register_by_id state client_owned normal)
  unfolding register_by_id refresh
  register_by_id-Anchors true =
      elim (Option-cases (
        find_by_client_session state.sessions normal.session_id normal.wire_version
          normal.wire_form)) [
            | inl e ↦ rw (e, register_by_id) tt
            | inr ((i, s), e) ↦
                let (g, a) =
                  find_by_client_session-some state.sessions normal.session_id normal.wire_version
                    normal.wire_form i s e in
                rw (e, register_by_id)
                  (known-IsAnchored state (record normal { session_id = s.session_id }) i s
                    (refresh s normal) g a refl refl v)
          ]
  register_by_id-Anchors false = elim (Option-cases (find state.sessions normal.session_id)) [
    | inl e ↦ rw (e, register_by_id) tt
    | inr ((i, s), e) ↦
        let (g, a, _) = find-some state.sessions normal.session_id i s e in
        rw (e, register_by_id)
          (known-IsAnchored state normal i s (refresh s normal) g a refl refl v)
  ]

  register_raw-Anchors : Anchors (register_raw state normal)
  unfolding register_raw refresh_raw
  register_raw-Anchors = elim (Bool-cases (normal.wire_version == 0)) [
    | inr structured ↦ rw (structured, register_raw) tt
    | inl raw ↦ elim (Option-cases (find_raw_by_ip state.sessions normal.ip)) [
      | inl e ↦ rw (raw, register_raw) (rw (e, register_raw) tt)
      | inr ((i, s), e) ↦
          let (g, a) = find_raw_by_ip-some state.sessions normal.ip i s e in
          rw (raw, register_raw)
            (rw (e, register_raw)
              (known-IsAnchored state normal i s (refresh_raw s normal) g a refl refl v))
    ]
  ]

  -- The id of a new session is positive, below the new counter, and no active session's.
  assign_id-fresh :
      (client_owned : Bool)
      → register_by_id state client_owned normal ≡ none
      → state.next_session_id + 1 < 2 ^ 64
      → normal.session_id + 1 < 2 ^ 64
      → let (id, next) = assign_id client_owned normal.session_id state.next_session_id in
        (0 < id)
        × (id < next)
        × (state.next_session_id ≤ next)
        × ((k : ℕ) (t : Session)
            → get_elem? state.sessions k ≡ some t
            → t.active ≡ true
            → t.session_id ≢ id)
  unfolding assign_id bump_next register_by_id
  assign_id-fresh true unknown room small =
      (ground arith, ground arith, ground arith, λ k t g a. ground (arith, v.ids.below k t g a))
  assign_id-fresh false unknown room small = elim (Bool-cases (normal.session_id == 0)) [
    | inl z ↦
        rw z
          (ground arith, ground arith, ground arith, λ k t g a. ground (arith, v.ids.below k t g a))
    | inr nz ↦
        let absent : find state.sessions normal.session_id ≡ none = ground arith in
        rw nz (
          ground arith,
          ground arith,
          ground arith,
          λ k t g a. find-none state.sessions normal.session_id k t absent (ground arith) g a,
        )
  ]

  open_session-Anchors :
      (client_owned : Bool)
      → register_by_id state client_owned normal ≡ none
      → state.next_session_id + 1 < 2 ^ 64
      → normal.session_id + 1 < 2 ^ 64
      → Anchors (open_session state client_owned normal)
  unfolding open_session new_session
  open_session-Anchors client_owned unknown room small =
      elim (Option-cases (find_slot (λ (s : Session). not s.active) state.sessions)) [
        | inl e ↦ rw (e, open_session) tt
        | inr ((i, free), e) ↦
            let (pos, below, grows, fresh) = assign_id-fresh client_owned unknown room small in
            let (id, next) = assign_id client_owned normal.session_id state.next_session_id in
            let s = new_session client_owned id normal in
            let (g, idle) =
              find_slot-some (λ (s : Session). not s.active) state.sessions i free e in
            rw (e, open_session)
              (record {
                sound = record {
                  slots = length-set state.sessions i s ∙ v.slots;
                  counted = ground (
                    arith,
                    count_if-set is_active state.sessions i free s g,
                    count_if-le-length is_active state.sessions,
                    v.slots,
                    v.counted,
                  );
                  positive = omega (arith, grows, v.positive);
                  ids =
                      add-HasIds state.sessions state.next_session_id next i s grows pos below fresh
                        v.ids;
                };
                there =
                    get_elem?-set_self state.sessions i s (get_elem?-lt state.sessions i free g);
                active = refl;
              })
      ]

  pub register-Anchors :
      (client_owned : Bool)
      → state.next_session_id + 1 < 2 ^ 64
      → normal.session_id + 1 < 2 ^ 64
      → Anchors (register state client_owned normal)
  unfolding register
  register-Anchors client_owned room small =
      elim (Option-cases (register_by_id state client_owned normal)) [
        | inr (r, e) ↦ rw (e, register) (rw e at (register_by_id-Anchors client_owned))
        | inl e ↦ elim (Option-cases (register_raw state normal)) [
          | inr (r, f) ↦ rw (e, register) (rw (f, register) (rw f at register_raw-Anchors))
          | inl f ↦
              rw (e, register) (rw (f, register) (open_session-Anchors client_owned e room small))
        ]
      ]

-- Short of the end of the 64-bit ids, `ingest` keeps the table sound: it has 64 slots, the count is
-- that of the active ones, and their ids are positive, below the counter and distinct.
pub ingest-IsSound :
    (state : SessionState) (control : Control) (normal : RecvPacket) (now_ms : ℕ)
    → IsSound state
    → state.next_session_id + 1 < 2 ^ 64
    → normal.session_id + 1 < 2 ^ 64
    → IsSound (ingest state control normal now_ms).0
unfolding ingest ingest_as touch
ingest-IsSound state control normal now_ms v room small =
    let owned = not (control.session_by_client == 0) in
    elim (Option-cases (register state owned normal)) [
      | inl e ↦ rw (e, ingest_as) v
      | inr (r, e) ↦
          let a = subst Anchors e (register-Anchors state normal v owned room small) in
          rw (e, ingest_as)
            (replace-IsSound r.state r.slot r.session (touch r.session now_ms) a.there refl refl
              a.sound)
    ]

pub release-IsSound : (state : SessionState) (id : ℕ) → IsSound state → IsSound (release state id).0
unfolding release
release-IsSound state id v = elim (Option-cases (find state.sessions id)) [
  | inl e ↦ rw (e, release) v
  | inr ((i, s), e) ↦
      rw (e, release) (clear-IsSound state i s (find-some state.sessions id i s e).0 v)
]
