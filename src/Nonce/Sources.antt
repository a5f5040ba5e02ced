-- ===== src/Nonce/Sources.antt =====
-- src/stdlib/nonce.c: a nonce that is found was added.
use siglatch.Prelude.{
  ℕ, zero, suc, ◌+◌, ◌-◌, ◌≤◌, ◌<◌, ◌≡◌, refl, sym, ◌∙◌, ap, true, false, inl, inr, ◌⊎◌, Option,
  none, some, List, [], ◌∷◌, if◌then◌else◌, ltb, ◌==◌, length, get_elem?, take, replicate, arith,
  Bool-cases, bytes_eq, bytes_eq_iff, length-take, get_elem?-set,
}
use siglatch.M7mux.Packet.{Bytes}
use siglatch.Nonce.{
  NonceEntry, NonceCache, NonceConfig, zero_entry, cache_init, check_entries, check, add, Call,
  step, run, is_unused, is_outdated, is_same,
}
use siglatch.Nonce.Replay.{run-same}
use siglatch.Prelude.{take-all}

-- `nonce` was added at `added` by one of the calls.
abbrev pub IsAdded : Bytes → ℕ → List Call → Type 0
IsAdded nonce added [] = ⊥
IsAdded nonce added (Call.checks n t ∷ calls) = IsAdded nonce added calls
IsAdded nonce added (Call.adds n t ∷ calls) =
    ((nonce ≡ n) × (added ≡ t)) ⊎ IsAdded nonce added calls

module _ (nonce_strlen ttl_seconds : ℕ) (nonce : Bytes) (now : ℕ) where
  check_entries-from :
      (entries : List NonceEntry) (i : ℕ) (e : NonceEntry)
      → get_elem? (check_entries nonce_strlen ttl_seconds nonce now entries).0 i ≡ some e
      → (e ≡ zero_entry) ⊎ (get_elem? entries i ≡ some e)
  unfolding check_entries
  check_entries-from [] i e g = absurd (cc)
  check_entries-from (x ∷ es) zero e g = ground arith
  check_entries-from (x ∷ es) (suc i) e g = ground (arith, check_entries-from es i e)

  check_entries-true :
      (entries : List NonceEntry)
      → (check_entries nonce_strlen ttl_seconds nonce now entries).1 ≡ true
      → (i : ℕ) × (e : NonceEntry) × (get_elem? entries i ≡ some e)
        × (is_unused e ≡ false)
        × (is_outdated ttl_seconds now e ≡ false)
        × (is_same nonce_strlen nonce e ≡ true)
  unfolding check_entries
  check_entries-true [] h = absurd (cc)
  check_entries-true (x ∷ es) h =
      let next : (check_entries nonce_strlen ttl_seconds nonce now es).1 ≡ true
          → (i : ℕ) × (e : NonceEntry) × (get_elem? (x ∷ es) i ≡ some e)
            × (is_unused e ≡ false)
            × (is_outdated ttl_seconds now e ≡ false)
            × (is_same nonce_strlen nonce e ≡ true) =
        λ q. let (i, e, g, u, o, m) = check_entries-true es q in (suc i, e, g, u, o, m) in
      elim (Bool-cases (is_unused x)) [
        | inl u ↦ next (rw u at h)
        | inr u ↦ elim (Bool-cases (is_outdated ttl_seconds now x)) [
          | inl o ↦ next (rw (u, o) at h)
          | inr o ↦ elim (Bool-cases (is_same nonce_strlen nonce x)) [
            | inl s ↦ (0, x, refl, u, o, s)
            | inr s ↦ next (rw (u, o, s) at h)
          ]
        ]
      ]

-- Every entry in use is of a nonce and a time with `P`.
abbrev Sourced : (Bytes → ℕ → Type 0) → NonceCache → Type 0
Sourced P cache =
    (i : ℕ) (e : NonceEntry)
    → get_elem? cache.entries i ≡ some e
    → (is_unused e ≡ true)
      ⊎ ((n : Bytes) × (t : ℕ) × P n t
          × (e ≡ record { nonce = take (cache.nonce_strlen - 1) n; timestamp = t }))

checks-Sourced :
    (P : Bytes → ℕ → Type 0) (cache : NonceCache) (nonce : Bytes) (now : ℕ)
    → Sourced P cache
    → Sourced P (check cache nonce now).0
unfolding check bytes_eq
checks-Sourced P cache nonce now s i e g =
    elim (check_entries-from cache.nonce_strlen cache.ttl_seconds nonce now cache.entries i e g) [
      | inl z ↦ inl (rw z refl)
      | inr h ↦ s i e h
    ]

add-Sourced :
    (P : Bytes → ℕ → Type 0) (cache : NonceCache) (nonce : Bytes) (now : ℕ)
    → P nonce now
    → Sourced P cache
    → Sourced P (add cache nonce now)
unfolding add
add-Sourced P cache nonce now p s = elim (Bool-cases (cache.capacity == 0)) [
  | inl c ↦ rw c s
  | inr c ↦ elim (Bool-cases (cache.nonce_strlen == 0)) [
    | inl n ↦ rw (c, n) s
    | inr n ↦
        rw (c, n)
          (λ i e g.
            elim (get_elem?-set cache.entries cache.next_index i
              (record { nonce = take (cache.nonce_strlen - 1) nonce; timestamp = now }) e g) [
                | inl (here, made) ↦ inr (nonce, now, p, made)
                | inr (other, there) ↦ s i e there
              ])
  ]
]

run-Sourced :
    (P : Bytes → ℕ → Type 0) (calls : List Call) (cache : NonceCache)
    → ((n : Bytes) (t : ℕ) → IsAdded n t calls → P n t)
    → Sourced P cache
    → Sourced P (run cache calls)
unfolding run step
run-Sourced P [] cache f s = s
run-Sourced P (Call.checks n t ∷ calls) cache f s =
    run-Sourced P calls (check cache n t).0 f (checks-Sourced P cache n t s)
run-Sourced P (Call.adds n t ∷ calls) cache f s =
    run-Sourced P calls (add cache n t) (λ m u a. f m u (inr a))
      (add-Sourced P cache n t (f n t (inl (refl, refl))) s)

replicate-unused :
    (n i : ℕ) (e : NonceEntry) → get_elem? (replicate n zero_entry) i ≡ some e → is_unused e ≡ true
unfolding bytes_eq
replicate-unused zero i e g = absurd (cc)
replicate-unused (suc n) zero e g = ground arith
replicate-unused (suc n) (suc i) e g = replicate-unused n i e g

cache_init-strlen : (cfg : Option NonceConfig) → 1 < (cache_init true cfg).0.nonce_strlen
unfolding cache_init
cache_init-strlen none = omega arith
cache_init-strlen (some cfg) = ground arith

cache_init-Sourced :
    (P : Bytes → ℕ → Type 0) (cfg : Option NonceConfig) → Sourced P (cache_init true cfg).0
unfolding cache_init bytes_eq
cache_init-Sourced P none i e g = inl (replicate-unused 128 i e g)
cache_init-Sourced P (some cfg) i e g =
    inl (replicate-unused (if ltb 0 cfg.capacity then cfg.capacity else 128) i e g)

-- The first `n` bytes of two strings are the same, and one string is shorter.
take-same : (n : ℕ) (xs ys : Bytes) → length xs < n → take n xs ≡ take n ys → ys ≡ xs
take-same n xs ys short same =
    let whole = take-all xs n (omega (arith)) in
    let shorter : length ys < n = omega (arith, length-take n ys, ap length (sym whole ∙ same)) in
    sym (take-all ys n (omega arith)) ∙ sym same ∙ whole

-- After a run of calls from a new cache, a check answers 1 only for what an entry keeps, the first
-- `nonce_strlen - 1` bytes, of a nonce that was added at most `ttl_seconds` ago.
pub check-IsAdded :
    (cfg : Option NonceConfig) (calls : List Call) (nonce : Bytes) (now : ℕ)
    → let cache = (cache_init true cfg).0 in
      (check (run cache calls) nonce now).1 ≡ true
      → (n : Bytes) × (t : ℕ) × IsAdded n t calls
        × (nonce ≡ take (cache.nonce_strlen - 1) n)
        × (now ≤ t + cache.ttl_seconds)
unfolding check
check-IsAdded cfg calls nonce now h =
    let cache = (cache_init true cfg).0 in
    let after = run cache calls in
    let (strlen, ttl) = run-same calls cache in
    let (i, e, g, used, live, same) =
      check_entries-true after.nonce_strlen after.ttl_seconds nonce now after.entries h in
    elim (run-Sourced (λ n t. IsAdded n t calls) calls cache (λ n t a. a)
      (cache_init-Sourced (λ n t. IsAdded n t calls) cfg) i e g) [
        | inl unused ↦ absurd (ground arith)
        | inr (n, t, a, made) ↦
            let kept : e.nonce ≡ take (cache.nonce_strlen - 1) n =
              ap (λ (x : NonceEntry). x.nonce) made ∙ rw strlen refl in
            let short : length e.nonce < cache.nonce_strlen = omega (
              arith,
              ap length kept,
              length-take (cache.nonce_strlen - 1) n,
              cache_init-strlen cfg,
            ) in
            let begins : take cache.nonce_strlen e.nonce ≡ take cache.nonce_strlen nonce =
              (bytes_eq_iff (take cache.nonce_strlen e.nonce) (take cache.nonce_strlen nonce)).0
                (rw strlen at same) in
            (
              n,
              t,
              a,
              take-same cache.nonce_strlen e.nonce nonce short begins ∙ kept,
              ground (arith, ap (λ (x : NonceEntry). x.timestamp) made, ttl),
            )
      ]

-- A nonce of `nonce_strlen` bytes or more is never found, however often it is added.
pub check-long :
    (cfg : Option NonceConfig) (calls : List Call) (nonce : Bytes) (now : ℕ)
    → (cache_init true cfg).0.nonce_strlen ≤ length nonce
    → (check (run (cache_init true cfg).0 calls) nonce now).1 ≡ false
check-long cfg calls nonce now long =
    elim (Bool-cases (check (run (cache_init true cfg).0 calls) nonce now).1) [
      | inr missed ↦ missed
      | inl found ↦
          let cache = (cache_init true cfg).0 in
          let (n, t, a, kept, early) = check-IsAdded cfg calls nonce now found in
          absurd (
            omega (
              arith,
              ap length kept,
              length-take (cache.nonce_strlen - 1) n,
              cache_init-strlen cfg,
            ))
    ]
