-- ===== src/Codec/Nonces/Decimal.antt =====
-- The nonce of a packet in src/shared/knock/codec/v4/v4.c tells its time and challenge.
use siglatch.Prelude.{
  ℕ, zero, suc, ◌+◌, ◌-◌, ◌*◌, ◌/◌, ◌%◌, ◌^◌, ◌≤◌, ◌<◌, ◌≡◌, ap, sym, ◌∙◌, true, [], ◌∷◌, ◌&&◌,
  if◌then◌else◌, ltb, leb, length, arith, Bool-cases, inl, inr,
}
use native.Mathlib.Nat.{pow-suc}
use siglatch.M7mux.Packet.{Bytes}
use siglatch.Codec.Nonces.{digits, nonce_text}

-- The number that the digits at the front show, after `n`, and what stands behind them.
read_digits : ℕ → Bytes → ℕ × Bytes
read_digits n [] = (n, [])
read_digits n (c ∷ s) =
    let more = read_digits (n * 10 + (c - 48)) s in
    if leb 48 c && leb c 57 then more else (n, c ∷ s)

abbrev tail_of : Bytes → Bytes
tail_of [] = []
tail_of (c ∷ s) = s

read_digits-digit :
    (m d : ℕ) (rest : Bytes)
    → d < 10
    → read_digits m ((48 + d) ∷ rest) ≡ read_digits (m * 10 + d) rest
unfolding read_digits
read_digits-digit m d rest h =
    let low : leb 48 (48 + d) ≡ true = ground arith in
    let high : leb (48 + d) 57 ≡ true = ground arith in
    rw (low, high) (ap (λ k. read_digits (m * 10 + k) rest) (omega arith))

more_fuel : (fuel n : ℕ) → n < 10 ^ suc fuel → 10 ≤ n → 0 < fuel
more_fuel zero n h l = absurd (omega arith)
more_fuel (suc fuel) n h l = omega arith

read_digits-digits :
    (fuel n : ℕ) (rest : Bytes)
    → n < 10 ^ fuel
    → 0 < fuel
    → read_digits 0 (digits fuel n rest) ≡ read_digits n rest
unfolding read_digits digits
read_digits-digits zero n rest h pos = absurd (omega arith)
read_digits-digits (suc fuel) n rest h pos = elim (Bool-cases (ltb n 10)) [
  | inl small ↦
      rw small
        (read_digits-digit 0 n rest (ground arith) ∙ ap (λ m. read_digits m rest) (omega arith))
  | inr large ↦
      let power = pow-suc 10 fuel in
      let more = more_fuel fuel n h (ground arith) in
      rw large (
        read_digits-digits fuel (n / 10) ((48 + n % 10) ∷ rest) (omega (arith, power, h)) more
        ∙ read_digits-digit (n / 10) (n % 10) rest (omega arith)
        ∙ ap (λ m. read_digits m rest) (omega arith))
]

pub length-digits : (fuel n : ℕ) (rest : Bytes) → length (digits fuel n rest) ≤ fuel + length rest
unfolding digits
length-digits zero n rest = omega arith
length-digits (suc fuel) n rest = ground (arith, length-digits fuel (n / 10) ((48 + n % 10) ∷ rest))

digits-longer : (fuel n : ℕ) (rest : Bytes) → length rest ≤ length (digits fuel n rest)
unfolding digits
digits-longer zero n rest = omega arith
digits-longer (suc fuel) n rest = ground (arith, digits-longer fuel (n / 10) ((48 + n % 10) ∷ rest))

pub length-nonce_text : (timestamp challenge : ℕ) → length (nonce_text timestamp challenge) ≤ 21
unfolding nonce_text
length-nonce_text timestamp challenge =
    omega (
      arith,
      length-digits 10 timestamp (45 ∷ digits 10 challenge []),
      length-digits 10 challenge [],
    )

read-nonce_text :
    (timestamp challenge : ℕ)
    → timestamp < 2 ^ 32
    → read_digits 0 (nonce_text timestamp challenge) ≡ (timestamp, 45 ∷ digits 10 challenge [])
unfolding nonce_text read_digits
read-nonce_text timestamp challenge h =
    read_digits-digits 10 timestamp (45 ∷ digits 10 challenge []) (omega (arith, h)) (omega arith)

read-challenge :
    (challenge : ℕ) → challenge < 2 ^ 32 → read_digits 0 (digits 10 challenge []) ≡ (challenge, [])
unfolding read_digits
read-challenge challenge h = read_digits-digits 10 challenge [] (omega (arith, h)) (omega arith)

-- Two packets have the same nonce only if they have the same time and the same challenge.
pub nonce_text-injective :
    (timestamp challenge timestamp' challenge' : ℕ)
    → timestamp < 2 ^ 32
    → challenge < 2 ^ 32
    → timestamp' < 2 ^ 32
    → challenge' < 2 ^ 32
    → nonce_text timestamp challenge ≡ nonce_text timestamp' challenge'
    → (timestamp ≡ timestamp') × (challenge ≡ challenge')
nonce_text-injective t c t' c' ht hc ht' hc' e =
    let read = sym (read-nonce_text t c ht) ∙ ap (read_digits 0) e ∙ read-nonce_text t' c' ht' in
    let rest = ap (λ (p : ℕ × Bytes). tail_of p.1) read in
    let challenges = sym (read-challenge c hc) ∙ ap (read_digits 0) rest ∙ read-challenge c' hc' in
    (ap (λ (p : ℕ × Bytes). p.0) read, ap (λ (p : ℕ × Bytes). p.0) challenges)

pub nonce_text-nonempty : (timestamp challenge : ℕ) → 0 < length (nonce_text timestamp challenge)
unfolding nonce_text
nonce_text-nonempty timestamp challenge =
    omega (arith, digits-longer 10 timestamp (45 ∷ digits 10 challenge []))
