-- ===== src/Daemon/Buffer.antt =====
-- src/siglatch/app/daemon/job.c: the buffers of a job and how they grow.
-- A size is below 2 ^ 64. `realloc` is a parameter, which says for which sizes it finds room.
mod Tests
use siglatch.Prelude.{
  ℕ, zero, suc, ◌+◌, ◌-◌, ◌*◌, ◌^◌, ◌≤◌, ◌<◌, ◌≡◌, refl, ap, subst, Bool, true, false, not, ◌&&◌,
  Option, none, some, List, [], ◌∷◌, inl, inr, ◌⊎◌, if◌then◌else◌, ltb, leb, ◌==◌, length, arith,
  Bool-cases, Option-cases,
}
use siglatch.M7mux.Packet.{Bytes}

-- A pointer with its length and its capacity: `bytes` are those below the length.
pub record Buffer : Type 0 where
  pub bytes : Bytes
  pub allocated : Bool
  pub cap : ℕ

-- What `app_job_release_owned_buffer` leaves.
abbrev pub no_buffer : Buffer
no_buffer = record { bytes = []; allocated = false; cap = 0 }

abbrev pub payload_block_size : ℕ
payload_block_size = 1280

abbrev pub response_block_size : ℕ
response_block_size = 1280

-- `SIZE_MAX / 2`.
abbrev pub half_size_max : ℕ
half_size_max = 2 ^ 63 - 1

-- The loop that doubles, on fuel; `some 0` where the next doubling would not fit a size.
unfoldable pub double_up_to : ℕ → ℕ → ℕ → Option ℕ
double_up_to zero next_cap min_cap = none
double_up_to (suc fuel) next_cap min_cap =
    let rest = double_up_to fuel (next_cap * 2) min_cap in
    if ltb next_cap min_cap
    then (if ltb half_size_max next_cap then some 0 else rest)
    else some next_cap

unfoldable pub next_buffer_cap : ℕ → ℕ → ℕ → Option ℕ
next_buffer_cap current_cap min_cap block_size =
    let first = if ltb current_cap block_size then block_size else current_cap in
    double_up_to 65 (if first == 0 then block_size else first) min_cap

-- The bytes stay, as `realloc` copies them.
unfoldable pub reserve_buffer : (ℕ → Bool) → Buffer → ℕ → ℕ → Buffer × Bool
reserve_buffer realloc buffer min_cap block_size =
    if min_cap == 0
    then (buffer, true)
    else if buffer.allocated && leb min_cap buffer.cap
    then (buffer, true)
    else elim (next_buffer_cap buffer.cap min_cap block_size) [
      | none ↦ (buffer, false)
      | some next_cap ↦
          if next_cap == 0
          then (buffer, false)
          else if realloc next_cap
          then (record buffer { allocated = true; cap = next_cap }, true)
          else (buffer, false)
    ]

unfoldable pub copy_payload : (ℕ → Bool) → Buffer → Bytes → Buffer × Bool
copy_payload realloc buffer payload =
    let reserved = reserve_buffer realloc buffer (length payload) payload_block_size in
    if length payload == 0
    then (record buffer { bytes = [] }, true)
    else if reserved.1
    then (record (reserved.0) { bytes = payload }, true)
    else reserved

-- Fuel that is enough: `n` doubled so often does not fit a size.
abbrev doubled : ℕ → ℕ → ℕ
doubled zero n = n
doubled (suc fuel) n = doubled fuel (n * 2)

doubled_mono : (fuel m n : ℕ) → m ≤ n → doubled fuel m ≤ doubled fuel n
doubled_mono zero m n h = h
doubled_mono (suc fuel) m n h = doubled_mono fuel (m * 2) (n * 2) (omega arith)

-- What growing to `min_cap` answers: a size that is large enough, or 0 where no doubling fits.
abbrev pub IsGrown : ℕ → Option ℕ → Type 0
IsGrown min_cap none = ⊥
IsGrown min_cap (some next_cap) =
    ((next_cap ≡ 0) × (2 ^ 63 < min_cap))
    ⊎ ((0 < next_cap) × (min_cap ≤ next_cap) × (next_cap < 2 ^ 64))

double_up_to-IsGrown :
    (fuel next_cap min_cap : ℕ)
    → 0 < next_cap
    → next_cap < 2 ^ 64
    → 2 ^ 64 ≤ doubled fuel next_cap
    → IsGrown min_cap (double_up_to fuel next_cap min_cap)
unfolding double_up_to
double_up_to-IsGrown zero next_cap min_cap positive fits enough = absurd (omega arith)
double_up_to-IsGrown (suc fuel) next_cap min_cap positive fits enough =
    elim (Bool-cases (ltb next_cap min_cap)) [
      | inr e ↦ rw e (inr (positive, ground arith, fits))
      | inl e ↦ elim (Bool-cases (ltb half_size_max next_cap)) [
        | inl f ↦ rw (e, f) (inl (refl, ground arith))
        | inr f ↦
            rw (e, f)
              (double_up_to-IsGrown fuel (next_cap * 2) min_cap (omega arith) (ground arith) enough)
      ]
    ]

-- The loop of `next_buffer_cap` ends: for a positive block size it answers a size of at least
-- `min_cap`, or 0 where `min_cap` is above 2 ^ 63.
pub next_buffer_cap-IsGrown :
    (current_cap min_cap block_size : ℕ)
    → current_cap < 2 ^ 64
    → 0 < block_size
    → block_size < 2 ^ 64
    → IsGrown min_cap (next_buffer_cap current_cap min_cap block_size)
unfolding next_buffer_cap
next_buffer_cap-IsGrown current_cap min_cap block_size fits positive small =
    let first = if ltb current_cap block_size then block_size else current_cap in
    let start = if first == 0 then block_size else first in
    let from : 0 < start = ground arith in
    let below : start < 2 ^ 64 = ground arith in
    double_up_to-IsGrown 65 start min_cap from below (omega (arith, doubled_mono 65 1 start from))

-- Where the growth starts: at the capacity, or at a block if that is larger.
abbrev pub start_cap : ℕ → ℕ → ℕ
start_cap current_cap block_size = if ltb current_cap block_size then block_size else current_cap

-- The capacity that a buffer grows to: the start doubled as often as it takes, and not once more.
pub record IsNextCap (current_cap block_size size cap : ℕ) : Type 0 where
  pub times : ℕ
  pub reached : cap ≡ doubled times (start_cap current_cap block_size)
  pub enough : size ≤ cap
  pub least : (cap ≡ start_cap current_cap block_size) ⊎ (cap < size * 2)

abbrev IsFirst : ℕ → ℕ → Option ℕ → Type 0
IsFirst start min_cap none = Unit
IsFirst start min_cap (some cap) =
    (cap ≡ 0)
    ⊎ ((times : ℕ) × (cap ≡ doubled times start)
        × (min_cap ≤ cap)
        × ((cap ≡ start) ⊎ (cap < min_cap * 2)))

-- One doubling more in front.
first-doubled :
    (start min_cap : ℕ) (o : Option ℕ)
    → start < min_cap
    → IsFirst (start * 2) min_cap o
    → IsFirst start min_cap o
first-doubled start min_cap none h k = tt
first-doubled start min_cap (some cap) h (inl z) = inl z
first-doubled start min_cap (some cap) h (inr (times, r, enough, least)) =
    inr (suc times, r, enough, inr (ground (arith, h, least)))

double_up_to-IsFirst :
    (fuel start min_cap : ℕ) → IsFirst start min_cap (double_up_to fuel start min_cap)
unfolding double_up_to
double_up_to-IsFirst zero start min_cap = tt
double_up_to-IsFirst (suc fuel) start min_cap = elim (Bool-cases (ltb start min_cap)) [
  | inr e ↦ rw e (inr (0, refl, ground arith, inl refl))
  | inl e ↦ elim (Bool-cases (ltb half_size_max start)) [
    | inl f ↦ rw (e, f) (inl refl)
    | inr f ↦
        rw (e, f)
          (first-doubled start min_cap (double_up_to fuel (start * 2) min_cap) (ground arith)
            (double_up_to-IsFirst fuel (start * 2) min_cap))
  ]
]

next_buffer_cap-IsNextCap :
    (current_cap min_cap block_size cap : ℕ)
    → 0 < block_size
    → next_buffer_cap current_cap min_cap block_size ≡ some cap
    → 0 < cap
    → IsNextCap current_cap block_size min_cap cap
unfolding next_buffer_cap
next_buffer_cap-IsNextCap current_cap min_cap block_size cap positive h some_cap =
    let start = start_cap current_cap block_size in
    let starts : (start == 0) ≡ false = ground arith in
    let from = double_up_to-IsFirst 65 start min_cap in
    let found : double_up_to 65 start min_cap ≡ some cap = rw (starts, next_buffer_cap) at h in
    elim (subst (IsFirst start min_cap) found from) [
      | inl z ↦ absurd (omega (arith, z))
      | inr (times, r, enough, least) ↦ record {
        times = times;
        reached = r;
        enough = enough;
        least = least;
      }
    ]

-- Why a size is not granted: it is above 2 ^ 63 or `realloc` finds no room for what the buffer of
-- capacity `current_cap` would grow to.
abbrev pub IsTooBig : (ℕ → Bool) → ℕ → ℕ → ℕ → Type 0
IsTooBig realloc current_cap block_size size =
    (2 ^ 63 < size)
    ⊎ ((cap : ℕ) × IsNextCap current_cap block_size size cap × (realloc cap ≡ false))

-- The buffer holds its bytes.
pub record IsBuffer (buffer : Buffer) : Type 0 where
  pub holds : length buffer.bytes ≤ buffer.cap
  pub fits : buffer.cap < 2 ^ 64

-- A size is granted, in a buffer with the same bytes whose capacity is as it was or the next one, or it
-- is too big and nothing changes.
abbrev pub IsReserved : (ℕ → Bool) → Buffer → ℕ → ℕ → Buffer × Bool → Type 0
IsReserved realloc buffer block_size size r =
    ((r.1 ≡ true)
      × (r.0.bytes ≡ buffer.bytes)
      × (size ≤ r.0.cap)
      × (r.0.cap < 2 ^ 64)
      × ((r.0 ≡ buffer)
          ⊎ (IsNextCap buffer.cap block_size size r.0.cap
              × (realloc r.0.cap ≡ true)
              × (r.0.allocated ≡ true))))
    ⊎ ((r ≡ (buffer, false)) × IsTooBig realloc buffer.cap block_size size)

-- With a positive block size, a buffer that is too small grows to the first capacity that holds the size,
-- of those that its capacity or else the block size gives by doubling, if `realloc` grants it, and keeps
-- its bytes. It fails only where `realloc` refuses that capacity or the size is above 2 ^ 63, and then
-- changes nothing.
pub reserve_buffer-IsReserved :
    (realloc : ℕ → Bool) (buffer : Buffer) (size block_size : ℕ)
    → buffer.cap < 2 ^ 64
    → 0 < block_size
    → block_size < 2 ^ 64
    → IsReserved realloc buffer block_size size (reserve_buffer realloc buffer size block_size)
unfolding reserve_buffer
reserve_buffer-IsReserved realloc buffer size block_size fits positive small =
    elim (Bool-cases (size == 0)) [
      | inl e ↦ rw e (inl (refl, refl, ground arith, fits, inl refl))
      | inr e ↦ elim (Bool-cases (buffer.allocated && leb size buffer.cap)) [
        | inl f ↦ rw (e, f) (inl (refl, refl, ground arith, fits, inl refl))
        | inr f ↦
            let grown = next_buffer_cap-IsGrown buffer.cap size block_size fits positive small in
            elim (Option-cases (next_buffer_cap buffer.cap size block_size)) [
              | inl g ↦ absurd (subst (IsGrown size) g grown)
              | inr (cap, g) ↦ elim (subst (IsGrown size) g grown) [
                | inl (zeroed, large) ↦ rw (e, f, g, zeroed) (inr (refl, inl large))
                | inr (some_cap, enough, below) ↦
                    let h : (cap == 0) ≡ false = ground arith in
                    let next =
                      next_buffer_cap-IsNextCap buffer.cap size block_size cap positive g
                        some_cap in
                    elim (Bool-cases (realloc cap)) [
                      | inl k ↦
                          rw (e, f, g, h, k) (inl (refl, refl, enough, below, inr (next, k, refl)))
                      | inr k ↦ rw (e, f, g, h, k) (inr (refl, inr (cap, next, k)))
                    ]
              ]
            ]
      ]
    ]

-- `copy_payload` leaves a buffer with just the payload, in a capacity that holds it; it fails only
-- for a payload that is too big, and then the buffer is as it was.
pub copy_payload-IsBuffer :
    (realloc : ℕ → Bool) (buffer : Buffer) (payload : Bytes)
    → IsBuffer buffer
    → (((copy_payload realloc buffer payload).1 ≡ true)
        × ((copy_payload realloc buffer payload).0.bytes ≡ payload)
        × IsBuffer (copy_payload realloc buffer payload).0)
      ⊎ ((copy_payload realloc buffer payload ≡ (buffer, false))
          × IsTooBig realloc buffer.cap payload_block_size (length payload))
unfolding copy_payload
copy_payload-IsBuffer realloc buffer [] b =
    inl (refl, refl, record { holds = omega arith; fits = b.fits })
copy_payload-IsBuffer realloc buffer (c ∷ cs) b =
    let nonempty : (length (c ∷ cs) == 0) ≡ false = ground arith in
    elim (reserve_buffer-IsReserved realloc buffer (length (c ∷ cs)) payload_block_size b.fits
      (omega arith) (omega arith)) [
        | inl (granted, same, enough, below, how) ↦
            rw (nonempty, granted) (inl (refl, refl, record { holds = enough; fits = below }))
        | inr (refused, why) ↦ rw (nonempty, refused) (inr (refl, why))
      ]
