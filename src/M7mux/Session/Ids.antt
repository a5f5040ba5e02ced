-- ===== src/M7mux/Session/Ids.antt =====
-- src/stdlib/protocol/udp/m7mux/session/session.c: the ids of the sessions in the table.
use siglatch.Prelude.{
  map, get_elem?-map, ℕ, ◌≤◌, ◌<◌, ◌≡◌, ◌≢◌, sym, ◌∙◌, Bool, true, inl, inr, some, List, set,
  get_elem?, get_elem?-set, arith,
}
use siglatch.M7mux.Session.{Session}

abbrev pub is_active : Session → Bool
is_active s = s.active

-- The ids of the active sessions of a table: each is positive and below the counter, no two agree.
pub record HasIds (sessions : List Session) (next : ℕ) : Type 0 where
  pub below :
      (i : ℕ) (s : Session)
      → get_elem? sessions i ≡ some s
      → s.active ≡ true
      → (0 < s.session_id) × (s.session_id < next)
  pub unique :
      (i j : ℕ) (s t : Session)
      → get_elem? sessions i ≡ some s
      → get_elem? sessions j ≡ some t
      → s.active ≡ true
      → t.active ≡ true
      → s.session_id ≡ t.session_id
      → i ≡ j

-- What is written is inactive, or stands for the session that was there.
pub rewrite-HasIds :
    (sessions : List Session) (next i : ℕ) (s s' : Session)
    → get_elem? sessions i ≡ some s
    → (s'.active ≡ true → (s.active ≡ true) × (s'.session_id ≡ s.session_id))
    → HasIds sessions next
    → HasIds (set sessions i s') next
rewrite-HasIds sessions next i s s' g keep v = record {
  below = λ k t h a. elim (get_elem?-set sessions i k s' t h) [
    | inl (e, f) ↦ let (o, n) = keep (rw (← f) a) in let b = v.below i s g o in ground arith
    | inr (ne, h') ↦ v.below k t h' a
  ];
  unique = λ k l t u h h' a a' same. elim (get_elem?-set sessions i k s' t h) [
    | inl (e, f) ↦ elim (get_elem?-set sessions i l s' u h') [
      | inl (e', f') ↦ e ∙ sym e'
      | inr (ne', g') ↦
          let (o, n) = keep (rw (← f) a) in e ∙ v.unique i l s u g g' o a' (ground arith)
    ]
    | inr (ne, g') ↦ elim (get_elem?-set sessions i l s' u h') [
      | inl (e', f') ↦
          let (o, n) = keep (rw (← f') a') in v.unique k i t s g' g a o (ground arith) ∙ sym e'
      | inr (ne', g'') ↦ v.unique k l t u g' g'' a a' same
    ]
  ];
}

-- A new session with an id that no active session has.
pub add-HasIds :
    (sessions : List Session) (next next' i : ℕ) (s' : Session)
    → next ≤ next'
    → 0 < s'.session_id
    → s'.session_id < next'
    → ((k : ℕ) (t : Session)
        → get_elem? sessions k ≡ some t
        → t.active ≡ true
        → t.session_id ≢ s'.session_id)
    → HasIds sessions next
    → HasIds (set sessions i s') next'
add-HasIds sessions next next' i s' grows pos small fresh v = record {
  below = λ k t h a. elim (get_elem?-set sessions i k s' t h) [
    | inl (e, f) ↦ rw f (pos, small)
    | inr (ne, h') ↦ let b = v.below k t h' a in (b.0, omega arith)
  ];
  unique = λ k l t u h h' a a' same. elim (get_elem?-set sessions i k s' t h) [
    | inl (e, f) ↦ elim (get_elem?-set sessions i l s' u h') [
      | inl (e', f') ↦ e ∙ sym e'
      | inr (ne', g') ↦ absurd (fresh l u g' a' (ground arith))
    ]
    | inr (ne, g') ↦ elim (get_elem?-set sessions i l s' u h') [
      | inl (e', f') ↦ absurd (fresh k t g' a (ground arith))
      | inr (ne', g'') ↦ v.unique k l t u g' g'' a a' same
    ]
  ];
}

-- Clearing some of the sessions.
pub keep-HasIds :
    (f : Session → Session) (sessions : List Session) (next : ℕ)
    → ((s : Session) → (f s).active ≡ true → f s ≡ s)
    → HasIds sessions next
    → HasIds (map f sessions) next
keep-HasIds f sessions next keep v = record {
  below = λ i t h a.
      let (s, g, e) = get_elem?-map f sessions i t h in
      let same = keep s (rw (← e) a) in v.below i t (rw (e, same) g) a;
  unique = λ i j t u h h' a a' same.
      let (s, g, e) = get_elem?-map f sessions i t h in
      let (s', g', e') = get_elem?-map f sessions j u h' in
      let k = keep s (rw (← e) a) in
      let k' = keep s' (rw (← e') a') in v.unique i j t u (rw (e, k) g) (rw (e', k') g') a a' same;
}
