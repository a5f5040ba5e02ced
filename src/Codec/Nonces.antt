-- ===== src/Codec/Nonces.antt =====
-- Replayed packets in src/shared/knock/codec/v4/v4.c; v3.c has the same functions: each packet's time and
-- challenge make a nonce, which a cache of the codec's state keeps.
pub mod Decimal
pub mod Calls
pub mod Once
pub mod Fresh
mod Tests
use siglatch.Prelude.{
  ℕ, zero, suc, ◌+◌, ◌/◌, ◌%◌, Bool, true, false, Option, none, some, ◌&&◌, not, if◌then◌else◌, ltb,
  ◌==◌, List, [], ◌∷◌,
}
use siglatch.M7mux.Packet.{Bytes}
use siglatch.Nonce.{
  NonceCache, NonceConfig, zero_cache, default_capacity, default_strlen, default_ttl_seconds,
  cache_init, check, add,
}

-- `SharedKnockCodecV4State`.
pub record CodecState : Type 0 where
  pub nonce : NonceCache
  pub nonce_ready : Bool

abbrev pub zero_state : CodecState
zero_state = record { nonce = zero_cache; nonce_ready = false }

-- `window_ms` is the context's, or `none` where there is no context.
unfoldable pub nonce_ttl : Option ℕ → ℕ
nonce_ttl none = default_ttl_seconds
nonce_ttl (some window_ms) =
    let ttl_seconds = window_ms / 1000 in
    if ttl_seconds == 0 then default_ttl_seconds else ttl_seconds

abbrev pub config_of : Option ℕ → NonceConfig
config_of window_ms = record {
  capacity = default_capacity;
  nonce_strlen = default_strlen;
  ttl_seconds = some (nonce_ttl window_ms);
}

abbrev pub is_current : Option ℕ → CodecState → Bool
is_current window_ms state =
    state.nonce_ready
    && ((state.nonce.capacity == default_capacity)
        && ((state.nonce.nonce_strlen == default_strlen)
            && (state.nonce.ttl_seconds == nonce_ttl window_ms)))

-- `allocated` is whether a new cache finds room. `cache_init` drops the old cache as well.
unfoldable pub sync_nonce_cache : Bool → Option ℕ → CodecState → CodecState × Bool
sync_nonce_cache allocated window_ms state =
    if is_current window_ms state
    then (state, true)
    else let (cache, made) = cache_init allocated (some (config_of window_ms)) in
      (record { nonce = cache; nonce_ready = made }, made)

-- The digits of `n` before `rest`, the last first; ten rounds are enough for a `uint32_t`.
unfoldable pub digits : ℕ → ℕ → Bytes → Bytes
digits zero n rest = rest
digits (suc fuel) n rest =
    let longer = digits fuel (n / 10) ((48 + n % 10) ∷ rest) in
    if ltb n 10 then (48 + n) ∷ rest else longer

-- `snprintf` with "%u-%u"; at most 21 bytes of the 64 that the buffer has.
unfoldable pub nonce_text : ℕ → ℕ → Bytes
nonce_text timestamp challenge = digits 10 timestamp (45 ∷ digits 10 challenge [])

unfoldable pub packet_nonce_accept : Bool → Option ℕ → CodecState → ℕ → ℕ → ℕ → CodecState × Bool
packet_nonce_accept allocated window_ms state timestamp challenge now =
    let (state, synced) = sync_nonce_cache allocated window_ms state in
    let nonce_str = nonce_text timestamp challenge in
    let (cache, found) = check state.nonce nonce_str now in
    if not synced
    then (state, false)
    else if found
    then (record state { nonce = cache }, false)
    else (record state { nonce = add cache nonce_str now }, true)

-- `allocated` is whether the state finds room, `cached` whether its cache does.
unfoldable pub create_state : Bool → Bool → Option ℕ → Option CodecState
create_state false cached window_ms = none
create_state true cached window_ms =
    let (state, synced) = sync_nonce_cache cached window_ms zero_state in
    if synced then some state else none

-- A packet whose nonce is asked for: its time and challenge, and the clock.
pub record Request : Type 0 where
  pub timestamp : ℕ
  pub challenge : ℕ
  pub now : ℕ

-- The packets one after the other, with the same window throughout.
unfoldable pub accept_all : Option ℕ → CodecState → List Request → CodecState
accept_all window_ms state [] = state
accept_all window_ms state (r ∷ rs) =
    accept_all window_ms (packet_nonce_accept true window_ms state r.timestamp r.challenge r.now).0
      rs
