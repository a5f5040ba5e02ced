-- ===== src/Codec/Nonces/Tests.antt =====
-- src/shared/knock/codec/v4/v4.c: the theorems on nonces at inputs.
use siglatch.Prelude.{
  ℕ, ◌+◌, ◌≤◌, ◌≡◌, refl, true, false, some, Option, [], ◌∷◌, get_elem?, arith, bytes_eq,
}
use siglatch.Nonce.{cache_init, check, check_entries, add}
use siglatch.Codec.Nonces.{
  CodecState, nonce_ttl, config_of, nonce_text, digits, packet_nonce_accept, Request, accept_all,
  sync_nonce_cache,
}
use siglatch.Codec.Nonces.Calls.{create_state-some, create_state-IsSynced}
use siglatch.Codec.Nonces.Once.{packet_nonce_accept-once}
use siglatch.Codec.Nonces.Fresh.{packet_nonce_accept-fresh}

-- "17-205".
nonce_text-decimal : nonce_text 17 205 ≡ 49 ∷ 55 ∷ 45 ∷ 50 ∷ 48 ∷ 53 ∷ []
unfolding nonce_text digits
nonce_text-decimal = refl

nonce_ttl-window :
    (nonce_ttl (some 5999) ≡ 5) × (nonce_ttl (some 999) ≡ 60) × (nonce_ttl (some 0) ≡ 60)
unfolding nonce_ttl
nonce_ttl-window = (refl, refl, refl)

-- A window of ten seconds.
abbrev window : Option ℕ
window = some 10000

abbrev new : CodecState
new = record { nonce = (cache_init true (some (config_of window))).0; nonce_ready = true }

abbrev knock : Request
knock = record { timestamp = 17; challenge = 205; now = 100 }

abbrev other : Request
other = record { timestamp = 17; challenge = 206; now = 104 }

abbrev after_knock : CodecState
after_knock = (packet_nonce_accept true window new 17 205 100).0

packet_nonce_accept-once_example :
    (packet_nonce_accept true window (accept_all window after_knock (other ∷ [])) 17 205 110).1
    ≡ false
unfolding packet_nonce_accept sync_nonce_cache nonce_ttl nonce_text digits cache_init check
    check_entries bytes_eq
packet_nonce_accept-once_example =
    packet_nonce_accept-once window new knock (other ∷ []) 110 (create_state-IsSynced window) refl
      (omega arith) (omega arith, tt) (omega arith)

packet_nonce_accept-fresh_example :
    (i : ℕ) × (x : Request) × (get_elem? (knock ∷ []) i ≡ some x)
    × (x.timestamp ≡ 17)
    × (x.challenge ≡ 205)
    × (109 ≤ x.now + nonce_ttl window)
unfolding packet_nonce_accept sync_nonce_cache nonce_ttl nonce_text digits cache_init check
    check_entries bytes_eq add accept_all
packet_nonce_accept-fresh_example =
    packet_nonce_accept-fresh window new (knock ∷ []) (record knock { now = 109 })
      (create_state-some window)
      (record { timestamp_fits = omega arith; challenge_fits = omega arith }, tt)
      (record { timestamp_fits = omega arith; challenge_fits = omega arith }) refl
