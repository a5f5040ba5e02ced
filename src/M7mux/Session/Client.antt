-- ===== src/M7mux/Session/Client.antt =====
-- src/stdlib/protocol/udp/m7mux/session/session.c: what the caller of `m7mux_session_ingest` may rely on.
use siglatch.Prelude.{
  ℕ, ◌+◌, ◌%◌, ◌^◌, ◌<◌, ◌≡◌, ◌≢◌, refl, sym, ap, subst, ◌∙◌, Bool, true, false, not, inl, inr, ◌⊎◌,
  Option, none, some, List, ◌==◌, set, get_elem?, find_slot, find_slot-some, find_slot-none,
  find_slot-set_here, find_slot-set_fresh, arith, Bool-cases, Option-cases, get_elem?-set_self,
  get_elem?-lt,
}
use siglatch.M7mux.Packet.{RecvPacket, Control}
use siglatch.M7mux.Session.{
  Session, SessionState, session_timeout_ms, is_session, find, find_by_client_session,
  is_client_session, touch, refresh, assign_id, new_session, Registered, open_session, known,
  register_by_id, register_raw, register, anchor, ingest_as, ingest,
}
use siglatch.M7mux.Session.Ids.{HasIds}
use siglatch.M7mux.Session.Inv.{IsSound, Anchors, register-Anchors, ingest-IsSound, find-some}

some_eq : (p q : RecvPacket) → some p ≡ some q → p ≡ q
some_eq p q h = cc

-- In a sound table the id of an active session leads to it.
find-of_active :
    (sessions : List Session) (next i : ℕ) (s : Session)
    → HasIds sessions next
    → get_elem? sessions i ≡ some s
    → s.active ≡ true
    → find sessions s.session_id ≡ some (i, s)
unfolding find
find-of_active sessions next i s v g a =
    let positive : (s.session_id == 0) ≡ false = ground (arith, v.below i s g a) in
    rw positive (elim (Option-cases (find_slot (is_session s.session_id) sessions)) [
      | inl e ↦ absurd (ground (arith, find_slot-none (is_session s.session_id) sessions i s e g))
      | inr ((j, t), e) ↦
          let (h, m) = find_slot-some (is_session s.session_id) sessions j t e in
          let same : j ≡ i = v.unique j i t s h g (ground arith) a (ground arith) in
          let same_session : t ≡ s = ground (arith, same) in rw (e, same, same_session)
    ])

-- Where a session that is not the client's is registered under the packet's own id.
abbrev Named : Option Registered → Type 0
Named none = Unit
Named (some r) = r.normal.session_id ≡ r.session.session_id

module _ (state : SessionState) (normal : RecvPacket) (structured : normal.wire_version ≢ 0)
    (id : normal.session_id ≢ 0) where
  open_session-Named : Named (open_session state false normal)
  unfolding open_session assign_id new_session
  open_session-Named =
      elim (Option-cases (find_slot (λ (s : Session). not s.active) state.sessions)) [
        | inl e ↦ rw (e, open_session) tt
        | inr ((i, free), e) ↦ rw (e, open_session) (ground arith)
      ]

  register-Named : Named (register state false normal)
  unfolding register register_by_id register_raw refresh
  register-Named = elim (Option-cases (find state.sessions normal.session_id)) [
    | inr ((i, s), e) ↦
        rw (e, register, register_by_id) (sym (find-some state.sessions normal.session_id i s e).2)
    | inl e ↦
        let other : (normal.wire_version == 0) ≡ false = ground arith in
        rw (e, register, register_by_id) (rw (other, register_raw) open_session-Named)
  ]

-- The id that `ingest` gives back is the registered session's.
anchor-session_id :
    (state : SessionState) (owned : Bool) (normal : RecvPacket) (r : Registered)
    → (normal.wire_version ≢ 0) ⊎ (normal.session_id ≡ 0)
    → register state owned normal ≡ some r
    → (anchor owned normal r).session_id ≡ r.session.session_id
unfolding anchor
anchor-session_id state true normal r known_id e = refl
anchor-session_id state false normal r (inr zero_id) e = ground arith
anchor-session_id state false normal r (inl structured) e =
    elim (Bool-cases (normal.session_id == 0)) [
      | inl z ↦ rw z
      | inr nz ↦ rw nz (subst Named e (register-Named state normal structured (ground arith)))
    ]

-- In a sound table short of the end of the 64-bit ids: where a structured unit, or a raw one without a
-- session id, is taken in, the id of what comes back leads to an active session of the table after the
-- call, whose half minute starts anew; the unit is marked as synthetic exactly if it came without an id.
pub ingest-find :
    (state : SessionState) (control : Control) (normal : RecvPacket) (now_ms : ℕ)
    (packet : RecvPacket)
    → IsSound state
    → state.next_session_id + 1 < 2 ^ 64
    → normal.session_id + 1 < 2 ^ 64
    → (normal.wire_version ≢ 0) ⊎ (normal.session_id ≡ 0)
    → (ingest state control normal now_ms).1 ≡ some packet
    → (i : ℕ) × (s : Session) × (find
          (ingest state control normal now_ms).0.sessions
          packet.session_id
        ≡ some (i, s))
      × (s.active ≡ true)
      × (s.last_active_ms ≡ now_ms)
      × (s.expires_at_ms ≡ (now_ms + session_timeout_ms) % 2 ^ 64)
      × (packet.synthetic_session ≡ (normal.session_id == 0))
unfolding ingest ingest_as touch anchor
ingest-find state control normal now_ms packet v room small known_id e =
    let owned = not (control.session_by_client == 0) in
    elim (Option-cases (register state owned normal)) [
      | inl f ↦ absurd (ground arith)
      | inr (r, f) ↦
          let a = subst Anchors f (register-Anchors state normal v owned room small) in
          let s = touch r.session now_ms in
          let ids : HasIds (set r.state.sessions r.slot s) r.state.next_session_id =
            (rw (f, ingest_as) at (ingest-IsSound state control normal now_ms v room small)).ids in
          let same : packet ≡ anchor owned normal r = ground arith in
          let id : packet.session_id ≡ r.session.session_id =
            ap (λ (p : RecvPacket). p.session_id) same
            ∙ anchor-session_id state owned normal r known_id f in
          (
            r.slot,
            s,
            rw (f, ingest_as)
                (rw id (
                  find-of_active (set r.state.sessions r.slot s) r.state.next_session_id r.slot s
                    ids
                    (get_elem?-set_self r.state.sessions r.slot s
                      (get_elem?-lt r.state.sessions r.slot r.session a.there))
                    a.active)),
            a.active,
            refl,
            refl,
            ap (λ (p : RecvPacket). p.synthetic_session) same,
          )
    ]

-- A session that is registered for a client is the one that the client's own id leads to.
abbrev LeadsTo : RecvPacket → Option Registered → Type 0
LeadsTo normal none = Unit
LeadsTo normal (some r) =
    find_by_client_session r.state.sessions normal.session_id normal.wire_version normal.wire_form
    ≡ some (r.slot, r.session)

module _ (state : SessionState) (normal : RecvPacket) (structured : normal.wire_version ≢ 0)
    (id : normal.session_id ≢ 0) where
  abbrev is_own : Session → Bool
  is_own = is_client_session normal.session_id normal.wire_version normal.wire_form

  find_by-own :
      (sessions : List Session)
      → find_by_client_session sessions normal.session_id normal.wire_version normal.wire_form
        ≡ find_slot is_own sessions
  unfolding find_by_client_session
  find_by-own sessions = let nz : (normal.session_id == 0) ≡ false = ground arith in rw nz

  open_session-LeadsTo :
      find_slot is_own state.sessions ≡ none → LeadsTo normal (open_session state true normal)
  unfolding open_session new_session
  open_session-LeadsTo unknown =
      elim (Option-cases (find_slot (λ (s : Session). not s.active) state.sessions)) [
        | inl e ↦ rw (e, open_session) tt
        | inr ((i, free), e) ↦
            let (g, idle) =
              find_slot-some (λ (s : Session). not s.active) state.sessions i free e in
            let s =
              new_session true (assign_id true normal.session_id state.next_session_id).0 normal in
            let own : is_own s ≡ true = ground arith in
            rw (e, open_session)
              (find_by-own (set state.sessions i s)
                ∙ find_slot-set_fresh is_own state.sessions i free s unknown g own)
      ]

  register-LeadsTo : LeadsTo normal (register state true normal)
  unfolding register register_by_id register_raw
  register-LeadsTo = elim (Option-cases (find_slot is_own state.sessions)) [
    | inr ((i, s), e) ↦
        let own : is_own (refresh s normal) ≡ true =
          unfold refresh in ground (arith, find_slot-some is_own state.sessions i s e) in
        rw (find_by-own state.sessions ∙ e, register, register_by_id)
          (find_by-own (set state.sessions i (refresh s normal))
            ∙ find_slot-set_here is_own state.sessions i s (refresh s normal) e own)
    | inl e ↦
        let other : (normal.wire_version == 0) ≡ false = ground arith in
        rw (find_by-own state.sessions ∙ e, register, register_by_id)
          (rw (other, register_raw) (open_session-LeadsTo e))
  ]

ingest-client :
    (state : SessionState) (control : Control) (normal : RecvPacket) (now_ms : ℕ)
    → control.session_by_client ≢ 0
    → ingest state control normal now_ms ≡ ingest_as state true normal now_ms
unfolding ingest
ingest-client state control normal now_ms owns =
    let owned : not (control.session_by_client == 0) ≡ true = ground arith in
    ap (λ b. ingest_as state b normal now_ms) owned

-- What a client's unit is answered with, once its session is known.
ingest-known :
    (state : SessionState) (normal : RecvPacket) (now_ms i : ℕ) (s : Session)
    → find_by_client_session state.sessions normal.session_id normal.wire_version normal.wire_form
      ≡ some (i, s)
    → (packet : RecvPacket) × ((ingest_as state true normal now_ms).1 ≡ some packet)
      × (packet.session_id ≡ s.session_id)
unfolding ingest_as register register_by_id anchor refresh
ingest-known state normal now_ms i s e = (
  anchor true normal
      (known state (record normal { session_id = s.session_id }) i (refresh s normal)),
  rw (e, ingest_as, register, register_by_id) refl,
  refl,
)

ingest-registered :
    (state : SessionState) (normal : RecvPacket) (now_ms : ℕ) (r : Registered)
    → register state true normal ≡ some r
    → ingest_as state true normal now_ms ≡ (
      record (r.state) { sessions = set r.state.sessions r.slot (touch r.session now_ms) },
      some (anchor true normal r),
    )
unfolding ingest_as
ingest-registered state normal now_ms r e = rw (e, ingest_as) refl

-- Two structured units of one client session, one straight after the other, get one and the same
-- session id, and the second is always taken in.
pub ingest_twice-client :
    (state : SessionState) (control control' : Control) (first second packet : RecvPacket)
    (now_ms later_ms : ℕ)
    → control.session_by_client ≢ 0
    → control'.session_by_client ≢ 0
    → first.wire_version ≢ 0
    → first.session_id ≢ 0
    → second.session_id ≡ first.session_id
    → second.wire_version ≡ first.wire_version
    → second.wire_form ≡ first.wire_form
    → (ingest state control first now_ms).1 ≡ some packet
    → (packet' : RecvPacket) × ((ingest
          (ingest state control first now_ms).0
          control'
          second
          later_ms).1
        ≡ some packet')
      × (packet'.session_id ≡ packet.session_id)
unfolding touch anchor
ingest_twice-client state control control' first second packet now_ms later_ms owns owns' structured
      id same_id same_version same_form e =
    let e' : (ingest_as state true first now_ms).1 ≡ some packet =
      rw (ingest-client state control first now_ms owns) at e in
    elim (Option-cases (register state true first)) [
      | inl f ↦ absurd (unfold ingest_as in ground arith)
      | inr (r, f) ↦
          let led = subst (LeadsTo first) f (register-LeadsTo state first structured id) in
          let s = touch r.session now_ms in
          let after : SessionState = record (r.state) {
            sessions = set r.state.sessions r.slot s;
          } in
          let led' : find_by_client_session after.sessions first.session_id first.wire_version
                first.wire_form
              ≡ some (r.slot, s) =
            let own = find_by-own state first structured id in
            let here = sym (own r.state.sessions) ∙ led in
            own after.sessions
            ∙ find_slot-set_here
                (is_client_session first.session_id first.wire_version first.wire_form)
                r.state.sessions r.slot r.session s here
                (find_slot-some
                  (is_client_session first.session_id first.wire_version first.wire_form)
                  r.state.sessions r.slot r.session here).1 in
          let step = ingest-registered state first now_ms r f in
          let same = some_eq packet (anchor true first r) (sym e' ∙ ap (λ q. q.1) step) in
          let (packet', g, h) =
            ingest-known after second later_ms r.slot s
              (rw (same_id, same_version, same_form) led') in
          (
            packet',
            rw
                (
                  ingest-client state control first now_ms owns,
                  step,
                  ingest-client after control' second later_ms owns',
                )
                g,
            h ∙ sym (ap (λ (p : RecvPacket). p.session_id) same),
          )
    ]
