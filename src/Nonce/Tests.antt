-- ===== src/Nonce/Tests.antt =====
-- src/stdlib/nonce.c: the theorems at inputs.
use siglatch.Prelude.{
  ◌+◌, ◌≤◌, ◌≡◌, refl, true, false, some, List, [], ◌∷◌, ℕ, take, replicate, arith, bytes_eq,
}
use siglatch.M7mux.Packet.{Bytes}
use siglatch.Nonce.{
  NonceConfig, NonceCache, zero_entry, cache_init, check_entries, check, add, Call, run, step,
}
use siglatch.Nonce.Replay.{IsReady, check-replayed}
use siglatch.Nonce.Sources.{IsAdded, check-IsAdded, check-long}

-- Three nonces of at most three bytes, for ten seconds.
abbrev small : NonceConfig
small = record { capacity = 3; nonce_strlen = 4; ttl_seconds = some 10 }

abbrev cache : NonceCache
cache = record {
  entries = replicate 3 zero_entry;
  capacity = 3;
  nonce_strlen = 4;
  ttl_seconds = 10;
  next_index = 0;
}

cache_init-small : cache_init true (some small) ≡ (cache, true)
unfolding cache_init
cache_init-small = refl

cache-IsReady : IsReady cache
cache-IsReady = record { full = refl; next_in = omega arith; room = omega arith }

abbrev first : Bytes
first = 49 ∷ 45 ∷ 55 ∷ []

abbrev second : Bytes
second = 50 ∷ []

abbrev between : List Call
between = Call.adds second 101 ∷ Call.checks second 109 ∷ []

check-replayed_example : (check (run (add cache first 100) between) first 110).1 ≡ true
check-replayed_example =
    check-replayed cache first 100 110 between cache-IsReady (omega arith) (omega arith)
      (omega arith, tt) (omega arith) (omega arith)

check-IsAdded_example :
    (n : Bytes) × (t : ℕ) × IsAdded n t (Call.adds first 100 ∷ between)
    × (first ≡ take 3 n)
    × (105 ≤ t + 10)
unfolding run step check check_entries add cache_init bytes_eq
check-IsAdded_example = check-IsAdded (some small) (Call.adds first 100 ∷ between) first 105 refl

-- Four bytes do not fit.
check-long_example :
    (check
      (run (cache_init true (some small)).0 (Call.adds (48 ∷ first) 100 ∷ []))
      (48 ∷ first)
      100).1
    ≡ false
unfolding cache_init
check-long_example =
    check-long (some small) (Call.adds (48 ∷ first) 100 ∷ []) (48 ∷ first) 100 (omega arith)
