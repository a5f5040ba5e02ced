-- ===== src/Codec/Nonces/Fresh.antt =====
-- `packet_nonce_accept` of src/shared/knock/codec/v4/v4.c refuses only what it has seen.
use siglatch.Prelude.{
  ℕ, ◌+◌, zero, suc, ◌^◌, ◌≤◌, ◌<◌, ◌≡◌, ap, sym, subst, ◌∙◌, Bool, true, false, Option, some, List,
  [], ◌∷◌, inl, inr, Bool-cases, length, get_elem?, take, take-all, arith, All,
}
use mathlib.Core.Bool.{true≢false}
use mathlib.Core.Option.{some-injective}
use siglatch.M7mux.Packet.{Bytes}
use siglatch.Nonce.{cache_init, check, run}
use siglatch.Nonce.Sources.{check-IsAdded}
use siglatch.Codec.Nonces.{
  CodecState, nonce_ttl, config_of, nonce_text, packet_nonce_accept, create_state, Request,
  accept_all,
}
use siglatch.Codec.Nonces.Decimal.{length-nonce_text, nonce_text-injective}
use siglatch.Codec.Nonces.Calls.{
  IsSynced, found, accepts, accept-missed, calls_all, accept_all-run, accept_all-IsSynced,
  create_state-some, create_state-IsSynced, calls_all-IsAdded,
}

-- The numbers of a packet are `uint32_t`.
pub record FitsRequest (r : Request) : Type 0 where
  pub timestamp_fits : r.timestamp < 2 ^ 32
  pub challenge_fits : r.challenge < 2 ^ 32

FitsRequest-at :
    (rs : List Request) (i : ℕ) (x : Request)
    → All FitsRequest rs
    → get_elem? rs i ≡ some x
    → FitsRequest x
FitsRequest-at [] i x h e = absurd (cc)
FitsRequest-at (r ∷ rs) zero x (h, hs) e = subst FitsRequest (some-injective r x e) h
FitsRequest-at (r ∷ rs) (suc i) x (h, hs) e = FitsRequest-at rs i x hs e

refused-found :
    (window_ms : Option ℕ) (state : CodecState) (r : Request)
    → IsSynced window_ms state
    → (accepts window_ms state r).1 ≡ false
    → found window_ms state r ≡ true
refused-found window_ms state r s refused = elim (Bool-cases (found window_ms state r)) [
  | inl f ↦ f
  | inr f ↦ absurd (
      true≢false
        (sym (ap (λ (p : CodecState × Bool). p.1) (accept-missed window_ms state r s f)) ∙ refused))
]

-- The state that `create_state` makes with the default configuration.
abbrev made : Option ℕ → CodecState
made window_ms = record {
  nonce = (cache_init true (some (config_of window_ms))).0;
  nonce_ready = true;
}

found-IsAsked :
    (window_ms : Option ℕ) (rs : List Request) (r : Request)
    → found window_ms (accept_all window_ms (made window_ms) rs) r ≡ true
    → (n : Bytes) × (i : ℕ) × (x : Request) × (get_elem? rs i ≡ some x)
      × (n ≡ nonce_text x.timestamp x.challenge)
      × (nonce_text r.timestamp r.challenge ≡ take 31 n)
      × (r.now ≤ x.now + nonce_ttl window_ms)
unfolding cache_init
found-IsAsked window_ms rs r f =
    let text = nonce_text r.timestamp r.challenge in
    let calls = calls_all window_ms (made window_ms) rs in
    let nonce =
      ap (λ (x : CodecState). x.nonce)
        (accept_all-run window_ms (made window_ms) rs (create_state-IsSynced window_ms)) in
    let hit : (check (run (made window_ms).nonce calls) text r.now).1 ≡ true =
      ap (λ c. (check c text r.now).1) (sym nonce) ∙ f in
    let (n, t, added, kept, early) =
      check-IsAdded (some (config_of window_ms)) calls text r.now hit in
    let (i, x, there, same, at) = calls_all-IsAdded window_ms (made window_ms) rs n t added in
    (n, i, x, there, same, kept, omega (arith, early, at))

-- From a new state, a packet is refused only if one with the same time and the same challenge came
-- before it, in the time that the window allows.
pub packet_nonce_accept-fresh :
    (window_ms : Option ℕ) (state : CodecState) (rs : List Request) (r : Request)
    → create_state true true window_ms ≡ some state
    → All FitsRequest rs
    → FitsRequest r
    → (packet_nonce_accept true window_ms
        (accept_all window_ms state rs)
        r.timestamp
        r.challenge
        r.now).1
      ≡ false
    → (i : ℕ) × (x : Request) × (get_elem? rs i ≡ some x)
      × (x.timestamp ≡ r.timestamp)
      × (x.challenge ≡ r.challenge)
      × (r.now ≤ x.now + nonce_ttl window_ms)
packet_nonce_accept-fresh window_ms state rs r created all_fit fits refused =
    let new : made window_ms ≡ state =
      some-injective (made window_ms) state (sym (create_state-some window_ms) ∙ created) in
    let refused' =
      ap
        (λ s.
          (packet_nonce_accept true window_ms (accept_all window_ms s rs) r.timestamp r.challenge
            r.now).1)
        new
      ∙ refused in
    let synced =
      accept_all-IsSynced window_ms (made window_ms) rs (create_state-IsSynced window_ms) in
    let f = refused-found window_ms (accept_all window_ms (made window_ms) rs) r synced refused' in
    let (n, i, x, there, same, kept, early) = found-IsAsked window_ms rs r f in
    let x_fits = FitsRequest-at rs i x all_fit there in
    let whole : take 31 n ≡ n =
      take-all n 31 (omega (arith, ap length same, length-nonce_text x.timestamp x.challenge)) in
    let (times, challenges) =
      nonce_text-injective x.timestamp x.challenge r.timestamp r.challenge x_fits.timestamp_fits
        x_fits.challenge_fits fits.timestamp_fits fits.challenge_fits
        (sym same ∙ sym whole ∙ sym kept) in
    (i, x, there, times, challenges, early)
