-- ===== src/Policy/Mask.antt =====
-- src/stdlib/net/ip/range/range.c: what the mask of a prefix length keeps of an address.
use siglatch.Prelude.{
  ℕ, zero, suc, ◌+◌, ◌-◌, ◌*◌, ◌/◌, ◌%◌, ◌^◌, ◌<◌, ◌≤◌, ◌≡◌, refl, sym, ◌∙◌, ap, Bool, true, false,
  leb, ltb, ◌==◌, arith, min, ◌↔◌, Option, none, some, [], ==_iff,
}
use Prim.Native.Nat.{bit_and, bit_and-bitwise, digits}
use native.Mathlib.Nat.{
  pow-suc, pow-succ', mul_assoc, div-div-eq-div-mul, div-one, suc-mul, div-lt_iff_lt-mul,
  mul-div_cancel,
}
use siglatch.M7mux.Packet.{Bytes}
use siglatch.Policy.Range.{
  prefix_mask, trim_copy, strchr, slash, parse_ipv4_spec, contains_spec_ipv4,
}

abbrev and_digits : ℕ → ℕ → ℕ → ℕ
and_digits n a b = digits (λ b. 0) min n a b

-- More digits than the first number has add nothing.
and_digits-more : (n m a b : ℕ) → a ≤ n → a ≤ m → and_digits n a b ≡ and_digits m a b
and_digits-more zero zero a b h k = refl
and_digits-more zero (suc m) zero b h k = refl
and_digits-more zero (suc m) (suc a) b h k = absurd (omega arith)
and_digits-more (suc n) zero zero b h k = refl
and_digits-more (suc n) zero (suc a) b h k = absurd (omega arith)
and_digits-more (suc n) (suc m) zero b h k = refl
and_digits-more (suc n) (suc m) (suc a) b h k =
    rw (and_digits-more n m (suc a / 2) (b / 2) (omega arith) (omega arith)) refl

-- The last digit, and those before it.
bit_and-halves : (a b : ℕ) → bit_and a b ≡ bit_and (a / 2) (b / 2) * 2 + min (a % 2) (b % 2)
bit_and-halves zero b =
    let whole : bit_and 0 b ≡ 0 = bit_and-bitwise 0 b in
    let half : bit_and 0 (b / 2) ≡ 0 = bit_and-bitwise 0 (b / 2) in omega (arith, whole, half)
bit_and-halves (suc a) b =
    bit_and-bitwise (suc a) b
    ∙ ap (λ x. x * 2 + min (suc a % 2) (b % 2))
        (and_digits-more a (suc a / 2) (suc a / 2) (b / 2) (omega arith) (omega arith)
          ∙ sym (bit_and-bitwise (suc a / 2) (b / 2)))

bit_and-even : (a b : ℕ) → bit_and a (b * 2) ≡ bit_and (a / 2) b * 2
bit_and-even a b =
    let half : b * 2 / 2 ≡ b = omega arith in
    let last : min (a % 2) (b * 2 % 2) ≡ 0 = omega arith in
    bit_and-halves a (b * 2) ∙ rw (half, last) (omega arith)

bit_and-odd : (a b : ℕ) → bit_and a (b * 2 + 1) ≡ bit_and (a / 2) b * 2 + a % 2
bit_and-odd a b =
    let half : (b * 2 + 1) / 2 ≡ b = omega arith in
    let last : min (a % 2) ((b * 2 + 1) % 2) ≡ a % 2 = omega arith in
    bit_and-halves a (b * 2 + 1) ∙ rw (half, last) refl

pow_positive : (k : ℕ) → 0 < 2 ^ k
pow_positive zero = omega arith
pow_positive (suc k) = omega (arith, pow_positive k, pow-suc 2 k)

-- A number shifted up by `k` digits meets the digits of `a` above the `k`-th.
bit_and-shifted : (k a m : ℕ) → bit_and a (m * 2 ^ k) ≡ bit_and (a / 2 ^ k) m * 2 ^ k
bit_and-shifted zero a m =
    let whole : m * 2 ^ 0 ≡ m = omega arith in
    let same : a / 2 ^ 0 ≡ a = div-one a in rw (whole, same) (omega arith)
bit_and-shifted (suc k) a m =
    let shifted : m * 2 ^ suc k ≡ m * 2 ^ k * 2 =
      ap (λ x. m * x) (pow-suc 2 k) ∙ sym (mul_assoc m (2 ^ k) 2) in
    let divided : a / 2 / 2 ^ k ≡ a / 2 ^ suc k =
      div-div-eq-div-mul a 2 (2 ^ k) ∙ ap (λ x. a / x) (sym (pow-succ' 2 k)) in
    let below : bit_and (a / 2) (m * 2 ^ k) ≡ bit_and (a / 2 ^ suc k) m * 2 ^ k =
      bit_and-shifted k (a / 2) m ∙ ap (λ x. bit_and x m * 2 ^ k) divided in
    ap (λ x. bit_and a x) shifted
    ∙ bit_and-even a (m * 2 ^ k)
    ∙ ap (λ x. x * 2) below
    ∙ mul_assoc (bit_and (a / 2 ^ suc k) m) (2 ^ k) 2
    ∙ ap (λ x. bit_and (a / 2 ^ suc k) m * x) (sym (pow-suc 2 k))

-- `p` ones keep a number of `p` digits.
bit_and-ones : (p a : ℕ) → a < 2 ^ p → bit_and a (2 ^ p - 1) ≡ a
bit_and-ones zero zero h = bit_and-bitwise 0 (2 ^ 0 - 1)
bit_and-ones zero (suc a) h = absurd (omega arith)
bit_and-ones (suc p) a h =
    let ones : 2 ^ suc p - 1 ≡ (2 ^ p - 1) * 2 + 1 = omega (arith, pow-suc 2 p, pow_positive p) in
    let half : bit_and (a / 2) (2 ^ p - 1) ≡ a / 2 =
      bit_and-ones p (a / 2) (omega (arith, pow-suc 2 p)) in
    ap (λ x. bit_and a x) ones
    ∙ bit_and-odd a (2 ^ p - 1)
    ∙ ap (λ x. x * 2 + a % 2) half
    ∙ omega arith

pow_two_add : (p k : ℕ) → 2 ^ (p + k) ≡ 2 ^ p * 2 ^ k
pow_two_add p zero = let e : p + 0 ≡ p = omega arith in ap (λ x. 2 ^ x) e ∙ omega arith
pow_two_add p (suc k) =
    let e : p + suc k ≡ suc (p + k) = omega arith in
    ap (λ x. 2 ^ x) e
    ∙ pow-suc 2 (p + k)
    ∙ ap (λ x. x * 2) (pow_two_add p k)
    ∙ mul_assoc (2 ^ p) (2 ^ k) 2
    ∙ ap (λ x. 2 ^ p * x) (sym (pow-suc 2 k))

-- The mask has `p` ones above `k` zeroes.
prefix_mask-ones : (p k : ℕ) → p + k ≡ 32 → prefix_mask p ≡ (2 ^ p - 1) * 2 ^ k
unfolding prefix_mask
prefix_mask-ones zero k h = omega arith
prefix_mask-ones (suc q) zero h = let all : suc q ≡ 32 = omega arith in rw all (omega arith)
prefix_mask-ones (suc q) (suc j) h =
    let p = suc q in
    let k = suc j in
    let rest : 32 - p ≡ k = omega arith in
    let some_ones : (p == 0) ≡ false = ground arith in
    let some_zeroes : leb 32 p ≡ false = ground arith in
    let whole : 2 ^ p * 2 ^ k ≡ 2 ^ 32 = sym (pow_two_add p k) ∙ ap (λ x. 2 ^ x) h in
    let split : 2 ^ p ≡ suc (2 ^ p - 1) = omega (arith, pow_positive p) in
    let parts : 2 ^ p * 2 ^ k ≡ (2 ^ p - 1) * 2 ^ k + 2 ^ k =
      ap (λ x. x * 2 ^ k) split ∙ suc-mul (2 ^ p - 1) (2 ^ k) in
    rw (some_ones, some_zeroes, rest)
      (shifted_mask (2 ^ k) ((2 ^ p - 1) * 2 ^ k) (sym parts ∙ whole) (pow_positive k))
  where
    shifted_mask :
        (unit ones : ℕ) → ones + unit ≡ 2 ^ 32 → 0 < unit → ((2 ^ 32 - 1) * unit) % 2 ^ 32 ≡ ones
    shifted_mask unit ones whole positive = omega arith

-- The mask of `p` ones keeps the first `p` of 32 digits.
prefix_mask-keeps :
    (p k a : ℕ) → p + k ≡ 32 → a < 2 ^ 32 → bit_and a (prefix_mask p) ≡ a / 2 ^ k * 2 ^ k
prefix_mask-keeps p k a h small =
    let whole : 2 ^ p * 2 ^ k ≡ 2 ^ 32 = sym (pow_two_add p k) ∙ ap (λ x. 2 ^ x) h in
    let below : a / 2 ^ k < 2 ^ p = (div-lt_iff_lt-mul (pow_positive k)).1 (omega (arith, whole)) in
    ap (λ x. bit_and a x) (prefix_mask-ones p k h)
    ∙ bit_and-shifted k a (2 ^ p - 1)
    ∙ ap (λ x. x * 2 ^ k) (bit_and-ones p (a / 2 ^ k) below)

-- Two addresses have the same masked digits exactly if they agree above the `k`-th digit.
masked_iff :
    (p k a n : ℕ)
    → p + k ≡ 32
    → a < 2 ^ 32
    → n < 2 ^ 32
    → ((bit_and a (prefix_mask p) == bit_and n (prefix_mask p)) ≡ true) ↔ (a / 2 ^ k ≡ n / 2 ^ k)
masked_iff p k a n h small small' =
    let ka = prefix_mask-keeps p k a h small in
    let kn = prefix_mask-keeps p k n h small' in
    (
      λ e.
          let same : a / 2 ^ k * 2 ^ k ≡ n / 2 ^ k * 2 ^ k =
            sym ka ∙ (==_iff (bit_and a (prefix_mask p)) (bit_and n (prefix_mask p))).0 e ∙ kn in
          sym (mul-div_cancel (a / 2 ^ k) (pow_positive k))
          ∙ ap (λ x. x / 2 ^ k) same
          ∙ mul-div_cancel (n / 2 ^ k) (pow_positive k),
      λ e.
          (==_iff (bit_and a (prefix_mask p)) (bit_and n (prefix_mask p))).1
            (ka ∙ ap (λ x. x * 2 ^ k) e ∙ sym kn),
    )

module _ (isspace : ℕ → Bool) (inet_pton : Bytes → Option ℕ) (strtoul : Bytes → ℕ × Bytes) where
  -- A range that is an address, one slash and a prefix length of up to 32 contains just the addresses
  -- that agree with its own in that many leading digits of 32.
  pub contains_spec_ipv4-prefix :
      (spec trimmed before after ip : Bytes) (network asked prefix_len : ℕ)
      → trim_copy isspace spec 128 ≡ some trimmed
      → strchr trimmed slash ≡ some (before, after)
      → strchr after slash ≡ none
      → inet_pton before ≡ some network
      → strtoul after ≡ (prefix_len, [])
      → inet_pton ip ≡ some asked
      → prefix_len ≤ 32
      → network < 2 ^ 32
      → asked < 2 ^ 32
      → (contains_spec_ipv4 isspace inet_pton strtoul spec ip ≡ true)
        ↔ (asked / 2 ^ (32 - prefix_len) ≡ network / 2 ^ (32 - prefix_len))
  contains_spec_ipv4-prefix spec trimmed before after ip network asked prefix_len trims found once
        is_address parses is_asked bounded small small' =
      let p = prefix_len in
      let in_bounds : ltb 32 p ≡ false = ground arith in
      let parsed : parse_ipv4_spec isspace inet_pton strtoul spec
          ≡ some (record {
            network = bit_and network (prefix_mask p);
            mask = prefix_mask p;
            is_cidr = true;
          }) =
        unfold parse_ipv4_spec in
        ground (arith, trims, found, once, is_address, parses, in_bounds) in
      let answer : contains_spec_ipv4 isspace inet_pton strtoul spec ip
          ≡ (bit_and asked (prefix_mask p) == bit_and network (prefix_mask p)) =
        unfold contains_spec_ipv4 in ground (arith, parsed, is_asked) in
      rw answer (masked_iff p (32 - p) asked network (omega arith) small' small)
