-- ===== src/Nonce/Replay.antt =====
-- src/stdlib/nonce.c: a nonce that was added is found again.
use siglatch.Prelude.{
  ℕ, zero, suc, ◌+◌, ◌-◌, ◌%◌, ◌≤◌, ◌<◌, ◌≡◌, ◌≢◌, refl, ◌∙◌, true, false, inl, inr, ◌⊎◌, some,
  List, [], ◌∷◌, ltb, ◌==◌, length, get_elem?, take, take-all, arith, Bool-cases, bytes_eq,
  bytes_eq_iff, length-set, get_elem?-set_self, get_elem?-lt, get_elem?-set_ne,
}
use native.Mathlib.Nat.{mod-eq_of_lt, mod_self}
use siglatch.M7mux.Packet.{Bytes}
use siglatch.Nonce.{
  NonceEntry, NonceCache, check_entries, check, add, Call, step, run, is_unused, is_outdated,
  is_same,
}

-- A cache with room, as `cache_init` makes it and the calls keep it.
pub record IsReady (cache : NonceCache) : Type 0 where
  pub full : length cache.entries ≡ cache.capacity
  pub next_in : cache.next_index < cache.capacity
  pub room : 1 < cache.nonce_strlen

module _ (nonce_strlen ttl_seconds : ℕ) where
  check_entries-length :
      (nonce : Bytes) (now : ℕ) (entries : List NonceEntry)
      → length (check_entries nonce_strlen ttl_seconds nonce now entries).0 ≡ length entries
  unfolding check_entries
  check_entries-length nonce now [] = refl
  check_entries-length nonce now (e ∷ es) = ground (arith, check_entries-length nonce now es)

  -- An entry whose time is not over stays where it is.
  check_entries-get_elem? :
      (nonce : Bytes) (now : ℕ) (entries : List NonceEntry) (i : ℕ) (e : NonceEntry)
      → get_elem? entries i ≡ some e
      → is_outdated ttl_seconds now e ≡ false
      → get_elem? (check_entries nonce_strlen ttl_seconds nonce now entries).0 i ≡ some e
  unfolding check_entries
  check_entries-get_elem? nonce now [] i e g live = absurd (cc)
  check_entries-get_elem? nonce now (x ∷ es) zero e g live = ground arith
  check_entries-get_elem? nonce now (x ∷ es) (suc i) e g live =
      ground (arith, check_entries-get_elem? nonce now es i e g live)

  -- An entry in use whose time is not over and that is the same makes the answer 1.
  check_entries-found :
      (nonce : Bytes) (now : ℕ) (entries : List NonceEntry) (i : ℕ) (e : NonceEntry)
      → get_elem? entries i ≡ some e
      → is_unused e ≡ false
      → is_outdated ttl_seconds now e ≡ false
      → is_same nonce_strlen nonce e ≡ true
      → (check_entries nonce_strlen ttl_seconds nonce now entries).1 ≡ true
  unfolding check_entries
  check_entries-found nonce now [] i e g used live same = absurd (cc)
  check_entries-found nonce now (x ∷ es) zero e g used live same = ground arith
  check_entries-found nonce now (x ∷ es) (suc i) e g used live same =
      ground (arith, check_entries-found nonce now es i e g used live same)

pub step-IsReady : (cache : NonceCache) (call : Call) → IsReady cache → IsReady (step cache call)
unfolding step check add
step-IsReady cache (Call.checks nonce now) r = record {
  full = check_entries-length cache.nonce_strlen cache.ttl_seconds nonce now cache.entries ∙ r.full;
  next_in = r.next_in;
  room = r.room;
}
step-IsReady cache (Call.adds nonce now) r =
    let a : (cache.capacity == 0) ≡ false = ground (arith, r.next_in) in
    let b : (cache.nonce_strlen == 0) ≡ false = ground (arith, r.room) in
    rw (a, b)
      (record {
        full =
            length-set cache.entries cache.next_index
              (record { nonce = take (cache.nonce_strlen - 1) nonce; timestamp = now })
            ∙ r.full;
        next_in = omega (arith, r.next_in);
        room = r.room;
      })

abbrev pub adds_in : List Call → ℕ
adds_in [] = 0
adds_in (Call.checks nonce now ∷ calls) = adds_in calls
adds_in (Call.adds nonce now ∷ calls) = suc (adds_in calls)

-- No check is later than `limit`.
abbrev pub ChecksBy : ℕ → List Call → Type 0
ChecksBy limit [] = Unit
ChecksBy limit (Call.checks nonce now ∷ calls) = (now ≤ limit) × ChecksBy limit calls
ChecksBy limit (Call.adds nonce now ∷ calls) = ChecksBy limit calls

next_wraps :
    (next capacity : ℕ)
    → next < capacity
    → ((next + 1) % capacity ≡ next + 1) ⊎ (((next + 1) % capacity ≡ 0) × (next + 1 ≡ capacity))
next_wraps next capacity h = elim (Bool-cases (ltb (next + 1) capacity)) [
  | inl e ↦ inl (mod-eq_of_lt (ground arith))
  | inr e ↦ let end : next + 1 ≡ capacity = ground arith in inr (rw end (mod_self capacity), end)
]

-- `e` stands in slot `i`, and the ring is `k` slots past it.
record Holds (cache : NonceCache) (i k : ℕ) (e : NonceEntry) : Type 0 where
  ready : IsReady cache
  there : get_elem? cache.entries i ≡ some e
  past : (cache.next_index ≡ i + 1 + k) ⊎ (cache.next_index + cache.capacity ≡ i + 1 + k)

checks-Holds :
    (cache : NonceCache) (nonce : Bytes) (now i k : ℕ) (e : NonceEntry)
    → now ≤ e.timestamp + cache.ttl_seconds
    → Holds cache i k e
    → Holds (step cache (Call.checks nonce now)) i k e
unfolding step check
checks-Holds cache nonce now i k e early h = record {
  ready = step-IsReady cache (Call.checks nonce now) h.ready;
  there =
      check_entries-get_elem? cache.nonce_strlen cache.ttl_seconds nonce now cache.entries i e
        h.there (ground arith);
  past = h.past;
}

adds-Holds :
    (cache : NonceCache) (nonce : Bytes) (now i k : ℕ) (e : NonceEntry)
    → k + 1 < cache.capacity
    → Holds cache i k e
    → Holds (step cache (Call.adds nonce now)) i (k + 1) e
unfolding step add
adds-Holds cache nonce now i k e room h =
    let r = h.ready in
    let a : (cache.capacity == 0) ≡ false = ground (arith, r.next_in) in
    let b : (cache.nonce_strlen == 0) ≡ false = ground (arith, r.room) in
    let new : NonceEntry = record {
      nonce = take (cache.nonce_strlen - 1) nonce;
      timestamp = now;
    } in
    let apart : cache.next_index ≢ i = ground (arith, h.past) in
    record {
      ready = step-IsReady cache (Call.adds nonce now) r;
      there = rw (a, b) (get_elem?-set_ne cache.entries new apart ∙ h.there);
      past =
          rw (a, b) ground
            (
              arith,
              h.past,
              r.next_in,
              next_wraps cache.next_index cache.capacity r.next_in,
              get_elem?-lt cache.entries i e h.there,
              r.full,
            );
    }

pub add-same :
    (cache : NonceCache) (nonce : Bytes) (now : ℕ)
    → ((add cache nonce now).capacity ≡ cache.capacity)
      × ((add cache nonce now).ttl_seconds ≡ cache.ttl_seconds)
      × ((add cache nonce now).nonce_strlen ≡ cache.nonce_strlen)
unfolding add
add-same cache nonce now = ground arith

-- No call changes the cache's configuration.
pub run-same :
    (calls : List Call) (cache : NonceCache)
    → ((run cache calls).nonce_strlen ≡ cache.nonce_strlen)
      × ((run cache calls).ttl_seconds ≡ cache.ttl_seconds)
unfolding run step check
run-same [] cache = (refl, refl)
run-same (Call.checks nonce now ∷ calls) cache = run-same calls (check cache nonce now).0
run-same (Call.adds nonce now ∷ calls) cache =
    let (capacity, ttl, strlen) = add-same cache nonce now in
    let (strlen', ttl') = run-same calls (add cache nonce now) in (strlen' ∙ strlen, ttl' ∙ ttl)

run-Holds :
    (calls : List Call) (cache : NonceCache) (i k : ℕ) (e : NonceEntry)
    → ChecksBy (e.timestamp + cache.ttl_seconds) calls
    → k + adds_in calls < cache.capacity
    → Holds cache i k e
    → (get_elem? (run cache calls).entries i ≡ some e)
      × ((run cache calls).ttl_seconds ≡ cache.ttl_seconds)
      × ((run cache calls).nonce_strlen ≡ cache.nonce_strlen)
unfolding run step check
run-Holds [] cache i k e early room h = (h.there, refl, refl)
run-Holds (Call.checks nonce now ∷ calls) cache i k e (first, early) room h =
    run-Holds calls (step cache (Call.checks nonce now)) i k e early room
      (checks-Holds cache nonce now i k e first h)
run-Holds (Call.adds nonce now ∷ calls) cache i k e early room h =
    let (same_capacity, same_ttl, same_strlen) = add-same cache nonce now in
    let (there, ttl, strlen) =
      run-Holds calls (step cache (Call.adds nonce now)) i (k + 1) e (rw same_ttl early)
        (omega (arith, same_capacity)) (adds-Holds cache nonce now i k e (omega arith) h) in
    (there, ttl ∙ same_ttl, strlen ∙ same_strlen)

add-Holds :
    (cache : NonceCache) (nonce : Bytes) (now : ℕ)
    → IsReady cache
    → length nonce < cache.nonce_strlen
    → Holds (add cache nonce now) cache.next_index 0 (record { nonce = nonce; timestamp = now })
unfolding add step
add-Holds cache nonce now r short =
    let a : (cache.capacity == 0) ≡ false = ground (arith, r.next_in) in
    let b : (cache.nonce_strlen == 0) ≡ false = ground (arith, r.room) in
    let whole : take (cache.nonce_strlen - 1) nonce ≡ nonce =
      take-all nonce (cache.nonce_strlen - 1) (omega arith) in
    record {
      ready = step-IsReady cache (Call.adds nonce now) r;
      there =
          rw (a, b, whole)
            (get_elem?-set_self cache.entries cache.next_index
              (record { nonce = nonce; timestamp = now }) (omega (arith, r.full, r.next_in)));
      past =
          rw (a, b)
            (ground (arith, r.next_in, next_wraps cache.next_index cache.capacity r.next_in));
    }

not_empty : (nonce : Bytes) → 0 < length nonce → bytes_eq nonce [] ≡ false
unfolding bytes_eq
not_empty [] h = absurd (omega arith)
not_empty (c ∷ cs) h = refl

-- A nonce that fits an entry is found for as long as it lives: after it was added to a cache that is
-- ready, and any checks up to `ttl_seconds` later and fewer further nonces than the cache has entries,
-- a check of it in that time answers 1.
pub check-replayed :
    (cache : NonceCache) (nonce : Bytes) (added now : ℕ) (calls : List Call)
    → IsReady cache
    → 0 < length nonce
    → length nonce < cache.nonce_strlen
    → ChecksBy (added + cache.ttl_seconds) calls
    → adds_in calls < cache.capacity
    → now ≤ added + cache.ttl_seconds
    → (check (run (add cache nonce added) calls) nonce now).1 ≡ true
unfolding check
check-replayed cache nonce added now calls r used short early room in_time =
    let (same_capacity, same_ttl, same_strlen) = add-same cache nonce added in
    let e : NonceEntry = record { nonce = nonce; timestamp = added } in
    let after = add cache nonce added in
    let (there, ttl, strlen) =
      run-Holds calls after cache.next_index 0 e (rw same_ttl early) (omega (arith, same_capacity))
        (add-Holds cache nonce added r short) in
    check_entries-found (run after calls).nonce_strlen (run after calls).ttl_seconds nonce now
      (run after calls).entries cache.next_index e there (not_empty nonce used)
      (rw (ttl ∙ same_ttl) (ground arith))
      ((bytes_eq_iff (take (run after calls).nonce_strlen nonce)
          (take (run after calls).nonce_strlen nonce)).1
        refl)
