-- ===== src/Nonce.antt =====
-- src/stdlib/nonce.c: a ring of the nonces seen of late, against replays.
-- A nonce is a C string, its bytes without the terminator; an entry's string is empty while the entry
-- is free. Times are seconds, not below 0. `cache_shutdown` leaves `zero_cache`.
pub mod Replay
pub mod Sources
mod Tests
use siglatch.Prelude.{
  ℕ, ◌+◌, ◌-◌, ◌%◌, Bool, true, false, Option, none, some, List, [], ◌∷◌, if◌then◌else◌, ltb, ◌==◌,
  set, replicate, take, bytes_eq,
}
use siglatch.M7mux.Packet.{Bytes}

-- `NonceEntry`.
pub record NonceEntry : Type 0 where
  pub nonce : Bytes
  pub timestamp : ℕ

-- `NonceCache`; the entries carry their storage.
pub record NonceCache : Type 0 where
  pub entries : List NonceEntry
  pub capacity : ℕ
  pub nonce_strlen : ℕ
  pub ttl_seconds : ℕ
  pub next_index : ℕ

-- `NonceConfig`; `none` stands for the times below 0.
pub record NonceConfig : Type 0 where
  pub capacity : ℕ
  pub nonce_strlen : ℕ
  pub ttl_seconds : Option ℕ

abbrev pub zero_entry : NonceEntry
zero_entry = record { nonce = []; timestamp = 0 }

abbrev pub zero_cache : NonceCache
zero_cache = record {
  entries = [];
  capacity = 0;
  nonce_strlen = 0;
  ttl_seconds = 0;
  next_index = 0;
}

abbrev pub default_capacity : ℕ
default_capacity = 128

abbrev pub default_strlen : ℕ
default_strlen = 32

abbrev pub default_ttl_seconds : ℕ
default_ttl_seconds = 60

abbrev pub or_default : Option ℕ → ℕ → ℕ
or_default none d = d
or_default (some n) d = n

abbrev empty_cache : ℕ → ℕ → ℕ → NonceCache
empty_cache capacity nonce_strlen ttl_seconds = record {
  entries = replicate capacity zero_entry;
  capacity = capacity;
  nonce_strlen = nonce_strlen;
  ttl_seconds = ttl_seconds;
  next_index = 0;
}

-- `allocated` is whether both calls of `calloc` find room.
unfoldable pub cache_init : Bool → Option NonceConfig → NonceCache × Bool
cache_init false cfg = (zero_cache, false)
cache_init true none = (empty_cache default_capacity default_strlen default_ttl_seconds, true)
cache_init true (some cfg) = (
  empty_cache (if ltb 0 cfg.capacity then cfg.capacity else default_capacity)
      (if ltb 1 cfg.nonce_strlen then cfg.nonce_strlen else default_strlen)
      (or_default cfg.ttl_seconds default_ttl_seconds),
  true,
)

unfoldable pub clear : NonceCache → NonceCache
clear cache = record cache { entries = replicate cache.capacity zero_entry; next_index = 0 }

abbrev pub is_unused : NonceEntry → Bool
is_unused entry = bytes_eq entry.nonce []

-- A clock that went back expires nothing: the difference is below 0 in the code and 0 here.
abbrev pub is_outdated : ℕ → ℕ → NonceEntry → Bool
is_outdated ttl_seconds now entry = ltb ttl_seconds (now - entry.timestamp)

-- `strncmp` over `nonce_strlen` bytes.
abbrev pub is_same : ℕ → Bytes → NonceEntry → Bool
is_same nonce_strlen nonce entry =
    bytes_eq (take nonce_strlen entry.nonce) (take nonce_strlen nonce)

-- The loop of `lib_nonce_check`: it frees outdated entries up to the first entry that is the same.
unfoldable pub check_entries : ℕ → ℕ → Bytes → ℕ → List NonceEntry → List NonceEntry × Bool
check_entries nonce_strlen ttl_seconds nonce now [] = ([], false)
check_entries nonce_strlen ttl_seconds nonce now (entry ∷ entries) =
    let (rest, found) = check_entries nonce_strlen ttl_seconds nonce now entries in
    if is_unused entry
    then (entry ∷ rest, found)
    else if is_outdated ttl_seconds now entry
    then (zero_entry ∷ rest, found)
    else if is_same nonce_strlen nonce entry
    then (entry ∷ entries, true)
    else (entry ∷ rest, found)

unfoldable pub check : NonceCache → Bytes → ℕ → NonceCache × Bool
check cache nonce now =
    let (entries, found) =
      check_entries cache.nonce_strlen cache.ttl_seconds nonce now cache.entries in
    (record cache { entries = entries }, found)

unfoldable pub add : NonceCache → Bytes → ℕ → NonceCache
add cache nonce now =
    if cache.capacity == 0 then cache else if cache.nonce_strlen == 0 then cache else record cache {
      entries =
          set cache.entries cache.next_index
            (record { nonce = take (cache.nonce_strlen - 1) nonce; timestamp = now });
      next_index = (cache.next_index + 1) % cache.capacity;
    }

-- What is done with a cache after its creation.
pub data Call : Type 0 where
  checks : Bytes → ℕ → Call
  adds : Bytes → ℕ → Call

unfoldable pub step : NonceCache → Call → NonceCache
step cache (Call.checks nonce now) = (check cache nonce now).0
step cache (Call.adds nonce now) = add cache nonce now

unfoldable pub run : NonceCache → List Call → NonceCache
run cache [] = cache
run cache (call ∷ calls) = run (step cache call) calls
