-- ===== src/Codec/Wire.antt =====
-- The readers and writers of src/shared/knock/codec/v4/v4.c (v3.c has the same): big-endian numbers in
-- byte buffers. A byte is a number below 256, so that the shifted bytes, which `|` joins, add up.
use siglatch.Prelude.{
  ℕ, zero, suc, ◌+◌, ◌*◌, ◌/◌, ◌%◌, ◌≤◌, ◌<◌, ◌≡◌, refl, ap, List, [], ◌∷◌, ◌++◌, length, ◌∙◌, sym,
  ap₂, All, get_or, take, drop, replicate, length-append, length-take, length-replicate, arith,
}
use siglatch.M7mux.Packet.{Bytes}

-- `src[i]`.
abbrev pub byte : Bytes → ℕ → ℕ
byte src i = get_or src i 0

unfoldable pub read_u16 : Bytes → ℕ
read_u16 src = byte src 0 * 256 + byte src 1

unfoldable pub read_u32 : Bytes → ℕ
read_u32 src = byte src 0 * 16777216 + byte src 1 * 65536 + byte src 2 * 256 + byte src 3

unfoldable pub read_u64 : Bytes → ℕ
read_u64 src =
    byte src 0 * 72057594037927936
    + byte src 1 * 281474976710656
    + byte src 2 * 1099511627776
    + byte src 3 * 4294967296
    + byte src 4 * 16777216
    + byte src 5 * 65536
    + byte src 6 * 256
    + byte src 7

unfoldable pub write_u16 : ℕ → Bytes
write_u16 value = (value / 256 % 256) ∷ (value % 256) ∷ []

unfoldable pub write_u32 : ℕ → Bytes
write_u32 value =
    (value / 16777216 % 256) ∷ (value / 65536 % 256) ∷ (value / 256 % 256) ∷ (value % 256) ∷ []

unfoldable pub write_u64 : ℕ → Bytes
write_u64 value =
    (value / 72057594037927936 % 256)
    ∷ (value / 281474976710656 % 256)
    ∷ (value / 1099511627776 % 256)
    ∷ (value / 4294967296 % 256)
    ∷ (value / 16777216 % 256)
    ∷ (value / 65536 % 256)
    ∷ (value / 256 % 256)
    ∷ (value % 256)
    ∷ []

pub length-write_u32 : (v : ℕ) → length (write_u32 v) ≡ 4
unfolding write_u32
length-write_u32 v = refl

-- `memcpy` of `n` bytes out of an array whose first bytes are `bytes` and whose others are 0.
unfoldable pub first : ℕ → Bytes → Bytes
first n bytes = take n (bytes ++ replicate n 0)

pub read_u16-write_u16 : (v : ℕ) (rest : Bytes) → v < 65536 → read_u16 (write_u16 v ++ rest) ≡ v
unfolding read_u16 write_u16
read_u16-write_u16 v rest h = omega arith

pub read_u32-write_u32 :
    (v : ℕ) (rest : Bytes) → v < 4294967296 → read_u32 (write_u32 v ++ rest) ≡ v
unfolding read_u32 write_u32
read_u32-write_u32 v rest h = omega arith

pub read_u64-write_u64 :
    (v : ℕ) (rest : Bytes) → v < 18446744073709551616 → read_u64 (write_u64 v ++ rest) ≡ v
unfolding read_u64 write_u64
read_u64-write_u64 v rest h = omega arith

module _ {ℓ} {A : Type ℓ} where
  pub take-append : (xs ys : List A) (n : ℕ) → length xs ≡ n → take n (xs ++ ys) ≡ xs
  take-append [] ys zero h = refl
  take-append [] ys (suc n) h = absurd (omega arith)
  take-append (x ∷ xs) ys zero h = absurd (omega arith)
  take-append (x ∷ xs) ys (suc n) h = ap (λ r. x ∷ r) (take-append xs ys n (omega arith))

  pub drop-append : (xs ys : List A) (n : ℕ) → length xs ≡ n → drop n (xs ++ ys) ≡ ys
  drop-append [] ys zero h = refl
  drop-append [] ys (suc n) h = absurd (omega arith)
  drop-append (x ∷ xs) ys zero h = absurd (omega arith)
  drop-append (x ∷ xs) ys (suc n) h = drop-append xs ys n (omega arith)

  pub length-drop : (n : ℕ) (xs : List A) → n ≤ length xs → length (drop n xs) + n ≡ length xs
  length-drop zero xs h = omega arith
  length-drop (suc n) [] h = absurd (omega arith)
  length-drop (suc n) (x ∷ xs) h = omega (arith, length-drop n xs (omega arith))

pub first-all : (n : ℕ) (bytes : Bytes) → length bytes ≡ n → first n bytes ≡ bytes
unfolding first
first-all n bytes h = take-append bytes (replicate n 0) n h

pub length-first : (n : ℕ) (bytes : Bytes) → length (first n bytes) ≡ n
unfolding first
length-first n bytes = omega (
  arith,
  length-take n (bytes ++ replicate n 0),
  length-append bytes (replicate n 0),
  length-replicate {A = ℕ} n 0,
)

-- The numbers of a byte buffer.
abbrev pub IsBytes : Bytes → Type 0
IsBytes = All (λ b. b < 256)

pub byte-lt : (xs : Bytes) (i : ℕ) → IsBytes xs → byte xs i < 256
byte-lt [] i h = omega arith
byte-lt (x ∷ xs) zero (h, hs) = h
byte-lt (x ∷ xs) (suc i) (h, hs) = byte-lt xs i hs

pub drop-IsBytes : (n : ℕ) (xs : Bytes) → IsBytes xs → IsBytes (drop n xs)
drop-IsBytes zero xs h = h
drop-IsBytes (suc n) [] h = h
drop-IsBytes (suc n) (x ∷ xs) (h, hs) = drop-IsBytes n xs hs

pub read_u16-lt : (xs : Bytes) → IsBytes xs → read_u16 xs < 65536
unfolding read_u16
read_u16-lt xs h = omega (arith, byte-lt xs 0 h, byte-lt xs 1 h)

pub read_u32-lt : (xs : Bytes) → IsBytes xs → read_u32 xs < 4294967296
unfolding read_u32
read_u32-lt xs h = omega (arith, byte-lt xs 0 h, byte-lt xs 1 h, byte-lt xs 2 h, byte-lt xs 3 h)

pub write_u16-read_u16 :
    (xs : Bytes) → IsBytes xs → 2 ≤ length xs → write_u16 (read_u16 xs) ++ drop 2 xs ≡ xs
unfolding write_u16 read_u16
write_u16-read_u16 [] h l = absurd (omega arith)
write_u16-read_u16 (a ∷ []) h l = absurd (omega arith)
write_u16-read_u16 (a ∷ b ∷ xs) (p, (q, h)) l = ap₂ (λ x y. x ∷ y ∷ xs) (omega arith) (omega arith)

pub write_u32-read_u32 :
    (xs : Bytes) → IsBytes xs → 4 ≤ length xs → write_u32 (read_u32 xs) ++ drop 4 xs ≡ xs
unfolding write_u32 read_u32
write_u32-read_u32 [] h l = absurd (omega arith)
write_u32-read_u32 (a ∷ []) h l = absurd (omega arith)
write_u32-read_u32 (a ∷ b ∷ []) h l = absurd (omega arith)
write_u32-read_u32 (a ∷ b ∷ c ∷ []) h l = absurd (omega arith)
write_u32-read_u32 (a ∷ b ∷ c ∷ d ∷ xs) (p, (q, (r, (s, h)))) l =
    let n = a * 16777216 + b * 65536 + c * 256 + d in
    let first_two : (n / 16777216 % 256 ≡ a) × (n / 65536 % 256 ≡ b) = (omega arith, omega arith) in
    let last_two : (n / 256 % 256 ≡ c) × (n % 256 ≡ d) = (omega arith, omega arith) in
    rw (first_two.0, first_two.1, last_two.0, last_two.1) refl

module _ {ℓ} {A : Type ℓ} where
  pub drop-nil : (n : ℕ) → drop {A = A} n [] ≡ []
  drop-nil zero = refl
  drop-nil (suc n) = refl

  pub drop-drop : (n k : ℕ) (xs : List A) → drop k (drop n xs) ≡ drop (n + k) xs
  drop-drop zero k xs = ap (λ m. drop m xs) (omega arith)
  drop-drop (suc n) k [] = drop-nil k ∙ sym (drop-nil (suc n + k))
  drop-drop (suc n) k (x ∷ xs) =
      drop-drop n k xs ∙ ap (λ m. drop m (x ∷ xs)) {x = suc (n + k)} (omega arith)

  pub take-drop : (n : ℕ) (xs : List A) → take n xs ++ drop n xs ≡ xs
  take-drop zero xs = refl
  take-drop (suc n) [] = refl
  take-drop (suc n) (x ∷ xs) = ap (λ r. x ∷ r) (take-drop n xs)

-- A number or byte in a buffer, and what follows it.
pub byte-drop : (i : ℕ) (xs : Bytes) → i < length xs → byte xs i ∷ drop (i + 1) xs ≡ drop i xs
byte-drop i [] h = absurd (omega arith)
byte-drop zero (x ∷ xs) h = refl
byte-drop (suc i) (x ∷ xs) h =
    ap (λ m. byte xs i ∷ drop m (x ∷ xs)) {y = suc (i + 1)} (omega arith)
    ∙ byte-drop i xs (omega arith)

pub u16_at :
    (i : ℕ) (xs : Bytes)
    → IsBytes xs
    → i + 2 ≤ length xs
    → write_u16 (read_u16 (drop i xs)) ++ drop (i + 2) xs ≡ drop i xs
u16_at i xs h l = rw (sym (drop-drop i 2 xs)) (
    write_u16-read_u16 (drop i xs) (drop-IsBytes i xs h)
      (omega (arith, length-drop i xs (omega arith))))

pub u32_at :
    (i : ℕ) (xs : Bytes)
    → IsBytes xs
    → i + 4 ≤ length xs
    → write_u32 (read_u32 (drop i xs)) ++ drop (i + 4) xs ≡ drop i xs
u32_at i xs h l = rw (sym (drop-drop i 4 xs)) (
    write_u32-read_u32 (drop i xs) (drop-IsBytes i xs h)
      (omega (arith, length-drop i xs (omega arith))))
