-- ===== src/Codec/Nonces/Calls.antt =====
-- `packet_nonce_accept` of src/shared/knock/codec/v4/v4.c as calls of the cache of src/stdlib/nonce.c.
use siglatch.Prelude.{
  ℕ, suc, ◌≤◌, ◌≡◌, refl, ap, sym, subst, ◌∙◌, Bool, true, false, Option, some, List, [], ◌∷◌, ◌++◌,
  inl, inr, Bool-cases, length, get_elem?, arith, All, length-replicate, if◌then◌else◌,
}
use siglatch.M7mux.Packet.{Bytes}
use siglatch.Nonce.{NonceCache, zero_entry, cache_init, check, add, Call, run, step}
use siglatch.Nonce.Replay.{IsReady, step-IsReady, adds_in, ChecksBy, add-same}
use siglatch.Nonce.Sources.{IsAdded}
use siglatch.Codec.Nonces.{
  CodecState, nonce_ttl, config_of, sync_nonce_cache, nonce_text, packet_nonce_accept, create_state,
  Request, accept_all,
}

-- The cache of the state is the one that the context asks for.
pub record IsSynced (window_ms : Option ℕ) (state : CodecState) : Type 0 where
  pub ready : state.nonce_ready ≡ true
  pub capacity : state.nonce.capacity ≡ 128
  pub strlen : state.nonce.nonce_strlen ≡ 32
  pub ttl : state.nonce.ttl_seconds ≡ nonce_ttl window_ms
  pub cache : IsReady state.nonce

pub sync_nonce_cache-IsSynced :
    (allocated : Bool) (window_ms : Option ℕ) (state : CodecState)
    → IsSynced window_ms state
    → sync_nonce_cache allocated window_ms state ≡ (state, true)
unfolding sync_nonce_cache
sync_nonce_cache-IsSynced allocated window_ms state s =
    ground (arith, s.ready, s.capacity, s.strlen, s.ttl)

pub create_state-some :
    (window_ms : Option ℕ)
    → create_state true true window_ms
      ≡ some
          (record { nonce = (cache_init true (some (config_of window_ms))).0; nonce_ready = true })
unfolding create_state sync_nonce_cache cache_init
create_state-some window_ms = ground arith

pub create_state-IsSynced :
    (window_ms : Option ℕ)
    → IsSynced window_ms
        (record { nonce = (cache_init true (some (config_of window_ms))).0; nonce_ready = true })
unfolding cache_init
create_state-IsSynced window_ms = record {
  ready = refl;
  capacity = refl;
  strlen = refl;
  ttl = refl;
  cache = record {
    full = length-replicate 128 zero_entry;
    next_in = omega arith;
    room = omega arith;
  };
}

module _ (window_ms : Option ℕ) (state : CodecState) (r : Request) where
  abbrev text : Bytes
  text = nonce_text r.timestamp r.challenge

  abbrev pub found : Bool
  found = (check state.nonce text r.now).1

  abbrev pub checked : NonceCache
  checked = (check state.nonce text r.now).0

  abbrev pub accepts : CodecState × Bool
  accepts = packet_nonce_accept true window_ms state r.timestamp r.challenge r.now

  pub accept-found :
      IsSynced window_ms state → found ≡ true → accepts ≡ (record state { nonce = checked }, false)
  unfolding packet_nonce_accept
  accept-found s f = rw (sync_nonce_cache-IsSynced true window_ms state s) (ground (arith, f))

  pub accept-missed :
      IsSynced window_ms state
      → found ≡ false
      → accepts ≡ (record state { nonce = add checked text r.now }, true)
  unfolding packet_nonce_accept
  accept-missed s f = rw (sync_nonce_cache-IsSynced true window_ms state s) (ground (arith, f))

abbrev pub with_cache : NonceCache → CodecState
with_cache cache = record { nonce = cache; nonce_ready = true }

step-same :
    (cache : NonceCache) (call : Call)
    → ((step cache call).capacity ≡ cache.capacity)
      × ((step cache call).ttl_seconds ≡ cache.ttl_seconds)
      × ((step cache call).nonce_strlen ≡ cache.nonce_strlen)
unfolding step check
step-same cache (Call.checks nonce now) = (refl, refl, refl)
step-same cache (Call.adds nonce now) = add-same cache nonce now

pub step-IsSynced :
    (window_ms : Option ℕ) (cache : NonceCache) (call : Call)
    → IsSynced window_ms (with_cache cache)
    → IsSynced window_ms (with_cache (step cache call))
step-IsSynced window_ms cache call s =
    let (same_capacity, same_ttl, same_strlen) = step-same cache call in
    record {
      ready = refl;
      capacity = same_capacity ∙ s.capacity;
      strlen = same_strlen ∙ s.strlen;
      ttl = same_ttl ∙ s.ttl;
      cache = step-IsReady cache call s.cache;
    }

pub run-IsSynced :
    (window_ms : Option ℕ) (cache : NonceCache) (calls : List Call)
    → IsSynced window_ms (with_cache cache)
    → IsSynced window_ms (with_cache (run cache calls))
unfolding run
run-IsSynced window_ms cache [] s = s
run-IsSynced window_ms cache (call ∷ calls) s =
    run-IsSynced window_ms (step cache call) calls (step-IsSynced window_ms cache call s)

pub with_cache-nonce :
    (window_ms : Option ℕ) (state : CodecState)
    → IsSynced window_ms state
    → state ≡ with_cache state.nonce
with_cache-nonce window_ms state s = ap (λ (b : Bool). record state { nonce_ready = b }) s.ready

-- What one packet asks of the cache.
calls_for : Option ℕ → CodecState → Request → List Call
calls_for window_ms state r =
    let text = nonce_text r.timestamp r.challenge in
    if found window_ms state r
    then Call.checks text r.now ∷ []
    else Call.checks text r.now ∷ Call.adds text r.now ∷ []

accepts-run :
    (window_ms : Option ℕ) (state : CodecState) (r : Request)
    → IsSynced window_ms state
    → (accepts window_ms state r).0 ≡ with_cache (run state.nonce (calls_for window_ms state r))
unfolding calls_for run step
accepts-run window_ms state r s = elim (Bool-cases (found window_ms state r)) [
  | inl f ↦ rw (f, accept-found window_ms state r s f, s.ready) refl
  | inr f ↦ rw (f, accept-missed window_ms state r s f, s.ready) refl
]

pub accepts-IsSynced :
    (window_ms : Option ℕ) (state : CodecState) (r : Request)
    → IsSynced window_ms state
    → IsSynced window_ms (accepts window_ms state r).0
accepts-IsSynced window_ms state r s =
    subst (IsSynced window_ms) (sym (accepts-run window_ms state r s)) (
      run-IsSynced window_ms state.nonce (calls_for window_ms state r)
        (subst (IsSynced window_ms) (with_cache-nonce window_ms state s) s))

-- What many packets ask of the cache.
pub calls_all : Option ℕ → CodecState → List Request → List Call
calls_all window_ms state [] = []
calls_all window_ms state (r ∷ rs) =
    calls_for window_ms state r ++ calls_all window_ms (accepts window_ms state r).0 rs

run-append : (cache : NonceCache) (xs ys : List Call) → run cache (xs ++ ys) ≡ run (run cache xs) ys
unfolding run
run-append cache [] ys = refl
run-append cache (x ∷ xs) ys = run-append (step cache x) xs ys

pub accept_all-run :
    (window_ms : Option ℕ) (state : CodecState) (rs : List Request)
    → IsSynced window_ms state
    → accept_all window_ms state rs ≡ with_cache (run state.nonce (calls_all window_ms state rs))
unfolding accept_all calls_all run
accept_all-run window_ms state [] s = with_cache-nonce window_ms state s
accept_all-run window_ms state (r ∷ rs) s =
    let one = accepts-run window_ms state r s in
    let nonce : (accepts window_ms state r).0.nonce
        ≡ run state.nonce (calls_for window_ms state r) =
      ap (λ (x : CodecState). x.nonce) one in
    accept_all-run window_ms (accepts window_ms state r).0 rs (accepts-IsSynced window_ms state r s)
    ∙ ap (λ c. with_cache (run c (calls_all window_ms (accepts window_ms state r).0 rs))) nonce
    ∙ ap with_cache (
        sym (
          run-append state.nonce (calls_for window_ms state r)
            (calls_all window_ms (accepts window_ms state r).0 rs)))

pub accept_all-IsSynced :
    (window_ms : Option ℕ) (state : CodecState) (rs : List Request)
    → IsSynced window_ms state
    → IsSynced window_ms (accept_all window_ms state rs)
accept_all-IsSynced window_ms state rs s =
    subst (IsSynced window_ms) (sym (accept_all-run window_ms state rs s)) (
      run-IsSynced window_ms state.nonce (calls_all window_ms state rs)
        (subst (IsSynced window_ms) (with_cache-nonce window_ms state s) s))

-- At most one nonce is added for each packet.
pub calls_all-adds :
    (window_ms : Option ℕ) (state : CodecState) (rs : List Request)
    → adds_in (calls_all window_ms state rs) ≤ length rs
unfolding calls_all calls_for
calls_all-adds window_ms state [] = omega arith
calls_all-adds window_ms state (r ∷ rs) =
    let rest = calls_all-adds window_ms (accepts window_ms state r).0 rs in
    elim (Bool-cases (found window_ms state r)) [
      | inl f ↦ rw f (omega (arith, rest))
      | inr f ↦ rw f (omega (arith, rest))
    ]

pub calls_all-ChecksBy :
    (limit : ℕ) (window_ms : Option ℕ) (state : CodecState) (rs : List Request)
    → All (λ (r : Request). r.now ≤ limit) rs
    → ChecksBy limit (calls_all window_ms state rs)
unfolding calls_all calls_for
calls_all-ChecksBy limit window_ms state [] h = h
calls_all-ChecksBy limit window_ms state (r ∷ rs) (h, hs) =
    let rest = calls_all-ChecksBy limit window_ms (accepts window_ms state r).0 rs hs in
    elim (Bool-cases (found window_ms state r)) [ inl f ↦ rw f (h, rest) | inr f ↦ rw f (h, rest) ]

-- The nonce `n` is that of a packet of `rs`, which came at `t`.
abbrev pub IsAsked : List Request → Bytes → ℕ → Type 0
IsAsked rs n t =
    (i : ℕ) × (r : Request) × (get_elem? rs i ≡ some r)
    × (n ≡ nonce_text r.timestamp r.challenge)
    × (t ≡ r.now)

IsAsked-later :
    (r : Request) (rs : List Request) (n : Bytes) (t : ℕ) → IsAsked rs n t → IsAsked (r ∷ rs) n t
IsAsked-later r rs n t (i, x, there, same, at) = (suc i, x, there, same, at)

-- Every nonce that is added is a packet's.
pub calls_all-IsAdded :
    (window_ms : Option ℕ) (state : CodecState) (rs : List Request) (n : Bytes) (t : ℕ)
    → IsAdded n t (calls_all window_ms state rs)
    → IsAsked rs n t
unfolding calls_all calls_for
calls_all-IsAdded window_ms state [] n t a = absurd a
calls_all-IsAdded window_ms state (r ∷ rs) n t a =
    let after = (accepts window_ms state r).0 in
    let later = λ (b : IsAdded n t (calls_all window_ms after rs)).
      IsAsked-later r rs n t (calls_all-IsAdded window_ms after rs n t b) in
    elim (Bool-cases (found window_ms state r)) [
      | inl f ↦ later (rw f at a)
      | inr f ↦ elim (rw f at a) [ inl (same, at) ↦ (0, r, refl, same, at) | inr b ↦ later b ]
    ]
