-- ===== src/Policy/Tests.antt =====
-- src/siglatch/app/policy/policy.c and src/stdlib/net/ip/range/range.c: the theorems at inputs, with
-- functions of the C library that suffice for them.
use siglatch.Prelude.{
  ◌+◌, ◌-◌, ◌*◌, ◌/◌, ◌^◌, ℕ, ◌≡◌, ◌≢◌, ◌↔◌, refl, Bool, true, Option, none, some, [], ◌∷◌, ◌++◌,
  ◌==◌, length, arith,
}
use siglatch.M7mux.Packet.{Bytes}
use siglatch.Policy.Range.{trim_copy, trim_start, trim_end, strchr, slash, contains_spec_ipv4}
use siglatch.Policy.Access.{request_ip_allowed, IsAdmitted, request_ip_allowed_iff}
use siglatch.Policy.Mask.{contains_spec_ipv4-prefix}
use siglatch.Policy.Blank.{contains_spec_ipv4-slash}

abbrev blank : ℕ → Bool
blank c = c == 32

-- An address is its number of bytes.
abbrev address : Bytes → Option ℕ
address [] = none
address (c ∷ cs) = some (length (c ∷ cs))

-- No text is a number.
abbrev number : Bytes → ℕ × Bytes
number text = (0, text)

abbrev here : Bytes
here = 49 ∷ 48 ∷ []

abbrev there : Bytes
there = 49 ∷ 49 ∷ 55 ∷ []

contains_spec_ipv4-slash_example :
    contains_spec_ipv4 blank address number (here ++ (slash ∷ [])) there ≡ true
unfolding strchr
contains_spec_ipv4-slash_example =
    contains_spec_ipv4-slash blank address number 49 (48 ∷ []) there 2 3 refl refl refl refl
      (omega arith) refl refl

request_ip_allowed_iff_example :
    (request_ip_allowed blank address number (there ∷ []) [] (here ∷ []) there ≡ true) ↔ (
      (there ≢ [])
      × IsAdmitted blank address number (there ∷ []) there
      × IsAdmitted blank address number [] there
      × IsAdmitted blank address number (here ∷ []) there)
request_ip_allowed_iff_example =
    request_ip_allowed_iff blank address number (there ∷ []) [] (here ∷ []) there

-- The range 12.0.0.0/8 as text of one byte before the slash and one behind it, and 12.0.0.7.
abbrev net_address : Bytes → Option ℕ
net_address [] = none
net_address (c ∷ cs) = some (12 * 2 ^ 24 + c)

abbrev eight : Bytes → ℕ × Bytes
eight text = (8, [])

contains_spec_ipv4-prefix_example :
    (contains_spec_ipv4 blank net_address eight (0 ∷ slash ∷ 56 ∷ []) (7 ∷ []) ≡ true)
    ↔ ((12 * 2 ^ 24 + 7) / 2 ^ (32 - 8) ≡ (12 * 2 ^ 24 + 0) / 2 ^ (32 - 8))
unfolding trim_copy trim_start trim_end strchr
contains_spec_ipv4-prefix_example =
    contains_spec_ipv4-prefix blank net_address eight (0 ∷ slash ∷ 56 ∷ []) (0 ∷ slash ∷ 56 ∷ [])
      (0 ∷ []) (56 ∷ []) (7 ∷ []) (12 * 2 ^ 24 + 0) (12 * 2 ^ 24 + 7) 8 refl refl refl refl refl
      refl (omega arith) (omega arith) (omega arith)
