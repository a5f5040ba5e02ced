-- ===== src/Codec/Nonces/Once.antt =====
-- `packet_nonce_accept` of src/shared/knock/codec/v4/v4.c refuses a packet that it has accepted.
use siglatch.Prelude.{
  ℕ, ◌+◌, ◌≤◌, ◌<◌, ◌≡◌, ap, sym, subst, ◌∙◌, Bool, true, false, Option, List, inl, inr, Bool-cases,
  length, arith, All,
}
use mathlib.Core.Bool.{true≢false}
use siglatch.Nonce.{check, add, Call, run, step}
use siglatch.Nonce.Replay.{ChecksBy, check-replayed}
use siglatch.Codec.Nonces.{
  CodecState, nonce_ttl, nonce_text, packet_nonce_accept, Request, accept_all,
}
use siglatch.Codec.Nonces.Decimal.{length-nonce_text, nonce_text-nonempty}
use siglatch.Codec.Nonces.Calls.{
  IsSynced, found, checked, accepts, accept-found, accept-missed, with_cache-nonce, step-IsSynced,
  accepts-IsSynced, calls_all, accept_all-run, accept_all-IsSynced, calls_all-adds,
  calls_all-ChecksBy,
}

accept-not_found :
    (window_ms : Option ℕ) (state : CodecState) (r : Request)
    → IsSynced window_ms state
    → (accepts window_ms state r).1 ≡ true
    → found window_ms state r ≡ false
accept-not_found window_ms state r s accepted = elim (Bool-cases (found window_ms state r)) [
  | inl f ↦ absurd (
      true≢false
        (sym accepted ∙ ap (λ (p : CodecState × Bool). p.1) (accept-found window_ms state r s f)))
  | inr f ↦ f
]

with_cache-add :
    (window_ms : Option ℕ) (state : CodecState) (r : Request)
    → IsSynced window_ms state
    → found window_ms state r ≡ false
    → (accepts window_ms state r).0.nonce
      ≡ add (checked window_ms state r) (nonce_text r.timestamp r.challenge) r.now
with_cache-add window_ms state r s f =
    ap (λ (p : CodecState × Bool). p.0.nonce) (accept-missed window_ms state r s f)

-- A packet that was accepted is refused when it comes again: no later than the window allows and
-- after fewer than 128 other packets, however these were answered.
pub packet_nonce_accept-once :
    (window_ms : Option ℕ) (state : CodecState) (r : Request) (rs : List Request) (now : ℕ)
    → IsSynced window_ms state
    → (packet_nonce_accept true window_ms state r.timestamp r.challenge r.now).1 ≡ true
    → length rs < 128
    → All (λ (x : Request). x.now ≤ r.now + nonce_ttl window_ms) rs
    → now ≤ r.now + nonce_ttl window_ms
    → (packet_nonce_accept true window_ms
        (accept_all window_ms
          (packet_nonce_accept true window_ms state r.timestamp r.challenge r.now).0
          rs)
        r.timestamp
        r.challenge
        now).1
      ≡ false
unfolding check step
packet_nonce_accept-once window_ms state r rs now s accepted few early in_time =
    let text = nonce_text r.timestamp r.challenge in
    let old = checked window_ms state r in
    let first = packet_nonce_accept true window_ms state r.timestamp r.challenge r.now in
    let missed = accept-not_found window_ms state r s accepted in
    let after = with_cache-add window_ms state r s missed in
    let calls = calls_all window_ms first.0 rs in
    let all = accept_all-run window_ms first.0 rs (accepts-IsSynced window_ms state r s) in
    let old_synced =
      step-IsSynced window_ms state.nonce (Call.checks text r.now)
        (subst (IsSynced window_ms) (with_cache-nonce window_ms state s) s) in
    let again =
      check-replayed old text r.now now calls old_synced.cache
        (nonce_text-nonempty r.timestamp r.challenge)
        (omega (arith, length-nonce_text r.timestamp r.challenge, old_synced.strlen))
        (subst (λ l. ChecksBy (r.now + l) calls) (sym old_synced.ttl)
          (calls_all-ChecksBy (r.now + nonce_ttl window_ms) window_ms first.0 rs early))
        (omega (arith, calls_all-adds window_ms first.0 rs, old_synced.capacity))
        (subst (λ l. now ≤ r.now + l) (sym old_synced.ttl) in_time) in
    let r' : Request = record r { now = now } in
    let final = accept_all window_ms first.0 rs in
    let nonce : final.nonce ≡ run (add old text r.now) calls =
      ap (λ (x : CodecState). x.nonce) all ∙ ap (λ c. run c calls) after in
    ap (λ (p : CodecState × Bool). p.1)
      (accept-found window_ms final r'
        (accept_all-IsSynced window_ms first.0 rs (accepts-IsSynced window_ms state r s))
        (ap (λ c. (check c text now).1) nonce ∙ again))
