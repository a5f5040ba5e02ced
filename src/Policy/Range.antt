-- ===== src/Policy/Range.antt =====
-- src/stdlib/net/ip/range/range.c: address ranges. `isspace`, `inet_pton` with the bytes in the host's
-- order, and `strtoul` with the text that it leaves are parameters.
use siglatch.Prelude.{
  ℕ, ◌-◌, ◌*◌, ◌%◌, ◌^◌, Bool, true, false, ◌&&◌, ◌||◌, not, Option, none, some, [], ◌∷◌, ◌++◌,
  if◌then◌else◌, ltb, leb, ◌==◌, length,
}
use Prim.Native.Nat.{bit_and}
use siglatch.M7mux.Packet.{Bytes}

-- What `parse_ipv4_spec` writes out.
pub record Ipv4Spec : Type 0 where
  pub network : ℕ
  pub mask : ℕ
  pub is_cidr : Bool

-- The text before and after the first `c`.
unfoldable pub strchr : Bytes → ℕ → Option (Bytes × Bytes)
strchr [] c = none
strchr (x ∷ xs) c =
    let rest = strchr xs c in
    if x == c
    then some ([], xs)
    else elim rest [ none ↦ none | some (before, after) ↦ some (x ∷ before, after) ]

abbrev pub slash : ℕ
slash = 47

abbrev pub comma : ℕ
comma = 44

-- `0xFFFFFFFFu << (32U - prefix_len)` over 32 bits.
unfoldable pub prefix_mask : ℕ → ℕ
prefix_mask prefix_len =
    if prefix_len == 0
    then 0
    else if leb 32 prefix_len
    then 2 ^ 32 - 1
    else ((2 ^ 32 - 1) * 2 ^ (32 - prefix_len)) % 2 ^ 32

module _ (isspace : ℕ → Bool) where
  unfoldable pub trim_start : Bytes → Bytes
  trim_start [] = []
  trim_start (c ∷ cs) = let rest = trim_start cs in if isspace c then rest else c ∷ cs

  unfoldable pub trim_end : Bytes → Bytes
  trim_end [] = []
  trim_end (c ∷ cs) =
      let rest = trim_end cs in if isspace c && length rest == 0 then [] else c ∷ rest

  unfoldable pub trim_copy : Bytes → ℕ → Option Bytes
  trim_copy input out_len =
      let trimmed = trim_end (trim_start input) in
      if length trimmed == 0
      then none
      else if leb out_len (length trimmed)
      then none
      else some trimmed

module _ (isspace : ℕ → Bool) (inet_pton : Bytes → Option ℕ) (strtoul : Bytes → ℕ × Bytes) where
  -- `is_single` for the text without a slash.
  abbrev pub spec_of_address : Option ℕ → Option Ipv4Spec
  spec_of_address none = none
  spec_of_address (some addr) = some (record { network = addr; mask = 2 ^ 32 - 1; is_cidr = false })

  -- The number behind the slash, with the text that `strtoul` leaves.
  abbrev pub spec_of_prefix : Option ℕ → ℕ × Bytes → Option Ipv4Spec
  spec_of_prefix none parsed = none
  spec_of_prefix (some addr) (prefix_len, rest) =
      if not (length rest == 0) || ltb 32 prefix_len
      then none
      else some (record {
        network = bit_and addr (prefix_mask prefix_len);
        mask = prefix_mask prefix_len;
        is_cidr = true;
      })

  unfoldable pub parse_ipv4_spec : Bytes → Option Ipv4Spec
  parse_ipv4_spec spec = elim (trim_copy isspace spec 128) [
    | none ↦ none
    | some trimmed ↦ elim (strchr trimmed slash) [
      | none ↦ spec_of_address (inet_pton trimmed)
      | some (before, after) ↦ elim (strchr after slash) [
        | some again ↦ none
        | none ↦ spec_of_prefix (inet_pton before) (strtoul after)
      ]
    ]
  ]

  unfoldable pub is_single_ipv4 : Bytes → Bool
  is_single_ipv4 spec = elim (trim_copy isspace spec 64) [
    | none ↦ false
    | some trimmed ↦ elim (strchr trimmed slash) [
      | some parts ↦ false
      | none ↦ elim (inet_pton trimmed) [ none ↦ false | some addr ↦ true ]
    ]
  ]

  unfoldable pub is_cidr_ipv4 : Bytes → Bool
  is_cidr_ipv4 spec = elim (parse_ipv4_spec spec) [ none ↦ false | some s ↦ s.is_cidr ]

  abbrev pub covers : Ipv4Spec → ℕ → Bool
  covers s addr = if s.is_cidr then bit_and addr s.mask == s.network else addr == s.network

  unfoldable pub contains_cidr_ipv4 : Bytes → Bytes → Bool
  contains_cidr_ipv4 cidr ip = elim (parse_ipv4_spec cidr) [
    | none ↦ false
    | some s ↦
        if s.is_cidr
        then elim (inet_pton ip) [ none ↦ false | some addr ↦ bit_and addr s.mask == s.network ]
        else false
  ]

  unfoldable pub contains_spec_ipv4 : Bytes → Bytes → Bool
  contains_spec_ipv4 spec ip = elim (parse_ipv4_spec spec) [
    | none ↦ false
    | some s ↦ elim (inet_pton ip) [ none ↦ false | some addr ↦ covers s addr ]
  ]

  -- The loop of `contains_any_ipv4`; `part` is the text from `start` up to the next byte.
  unfoldable pub contains_any_loop : Bytes → Bytes → Bytes → Bool
  contains_any_loop ip part [] =
      if length part == 0
      then false
      else if leb 128 (length part)
      then false
      else contains_spec_ipv4 part ip
  contains_any_loop ip part (c ∷ cs) =
      let rest = contains_any_loop ip (if c == comma then [] else part ++ (c ∷ [])) cs in
      if c == comma
      then if length part == 0
        then rest
        else if leb 128 (length part)
        then false
        else if contains_spec_ipv4 part ip
        then true
        else rest
      else rest

  unfoldable pub contains_any_ipv4 : Bytes → Bytes → Bool
  contains_any_ipv4 spec_list ip = contains_any_loop ip [] spec_list
