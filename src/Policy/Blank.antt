-- ===== src/Policy/Blank.antt =====
-- src/stdlib/net/ip/range/range.c: a range whose prefix length is left out.
use siglatch.Prelude.{
  ℕ, zero, suc, ◌+◌, ◌<◌, ◌≡◌, inl, inr, refl, ◌∙◌, Bool, true, false, Option, none, some, [], ◌∷◌,
  ◌++◌, leb, ◌==◌, length, length-append, arith, Option-cases, Bool-cases,
}
use Prim.Native.Nat.{bit_and, bit_and-bitwise, digits, ◌/◌, min}
use siglatch.M7mux.Packet.{Bytes}
use siglatch.Policy.Range.{
  strchr, slash, prefix_mask, trim_start, trim_end, trim_copy, parse_ipv4_spec, contains_spec_ipv4,
}

digits_zero : (n a : ℕ) → digits (λ b. 0) min n a 0 ≡ 0
digits_zero zero a = refl
digits_zero (suc n) zero = refl
digits_zero (suc n) (suc a) = omega (arith, digits_zero n (suc a / 2))

bit_and_zero : (a : ℕ) → bit_and a 0 ≡ 0
bit_and_zero a = bit_and-bitwise a 0 ∙ digits_zero a a

trim_end-slash :
    (isspace : ℕ → Bool)
    → isspace slash ≡ false
    → (t : Bytes) → trim_end isspace (t ++ (slash ∷ [])) ≡ t ++ (slash ∷ [])
unfolding trim_end
trim_end-slash isspace visible [] = rw visible refl
trim_end-slash isspace visible (c ∷ cs) =
    let kept = trim_end-slash isspace visible cs in
    let more : (length (cs ++ (slash ∷ [])) == 0) ≡ false =
      ground (arith, length-append cs (slash ∷ [])) in
    rw (kept, more) (elim (Bool-cases (isspace c)) [ inl e ↦ rw e refl | inr e ↦ rw e refl ])

strchr-slash : (t : Bytes) → strchr t slash ≡ none → strchr (t ++ (slash ∷ [])) slash ≡ some (t, [])
unfolding strchr
strchr-slash [] h = refl
strchr-slash (c ∷ cs) h = elim (Bool-cases (c == slash)) [
  | inl e ↦ absurd (ground arith)
  | inr e ↦ elim (Option-cases (strchr cs slash)) [
    | inl f ↦ rw (e, strchr-slash cs f) refl
    | inr ((before, after), f) ↦ absurd (ground arith)
  ]
]

module _ (isspace : ℕ → Bool) (inet_pton : Bytes → Option ℕ) (strtoul : Bytes → ℕ × Bytes) where
  -- A range that is an address and a slash, with no prefix length behind it, contains every address,
  -- where `strtoul` reads the empty text as 0.
  pub contains_spec_ipv4-slash :
      (c : ℕ) (cs ip : Bytes) (addr asked : ℕ)
      → isspace slash ≡ false
      → isspace c ≡ false
      → strtoul [] ≡ (0, [])
      → strchr (c ∷ cs) slash ≡ none
      → length (c ∷ cs) < 127
      → inet_pton (c ∷ cs) ≡ some addr
      → inet_pton ip ≡ some asked
      → contains_spec_ipv4 isspace inet_pton strtoul ((c ∷ cs) ++ (slash ∷ [])) ip ≡ true
  contains_spec_ipv4-slash c cs ip addr asked visible starts blank whole short is_address is_asked =
      let t : Bytes = (c ∷ cs) ++ (slash ∷ []) in
      let start : trim_start isspace t ≡ t = unfold trim_start in rw starts refl in
      let n : length t ≡ length (c ∷ cs) + 1 = length-append (c ∷ cs) (slash ∷ []) in
      let some_left : (length t == 0) ≡ false = ground arith in
      let fits : leb 128 (length t) ≡ false = ground (arith, n) in
      let trimmed : trim_copy isspace t 128 ≡ some t =
        unfold trim_copy in
        rw (start, trim_end-slash isspace visible (c ∷ cs), some_left, fits) refl in
      let nothing : strchr [] slash ≡ none = unfold strchr in refl in
      let parsed : parse_ipv4_spec isspace inet_pton strtoul t
          ≡ some (record { network = bit_and addr 0; mask = 0; is_cidr = true }) =
        unfold parse_ipv4_spec prefix_mask in
        ground (arith, trimmed, strchr-slash (c ∷ cs) whole, nothing, is_address, blank) in
      unfold contains_spec_ipv4 in
      ground (arith, parsed, is_asked, bit_and_zero addr, bit_and_zero asked)
