-- ===== src/Codec/V4/Fragments.antt =====
-- The fragments that `encode_fragment` of src/shared/knock/codec/v4/v4.c makes of a payload.
use siglatch.Prelude.{
  ℕ, zero, suc, ◌+◌, ◌*◌, ◌/◌, ◌≤◌, ◌<◌, ◌≡◌, refl, ap, sym, ◌∙◌, Option, none, some, [], ◌∷◌, ◌++◌,
  length, drop, length-take, arith, Bool-cases, inl, inr, leb, true,
}
use native.Mathlib.Nat.{add-mul, div-add-mod, mod-lt, mul-le-mul_left}
use siglatch.M7mux.Packet.{Bytes}
use siglatch.Codec.Wire.{drop-drop, take-drop}
use siglatch.Codec.Unit.{NormalizedUnit}
use siglatch.Codec.Sealed.{payload_max, form1_id}
use siglatch.Codec.V4.{
  format, required_fragments, count_fragments, fragment_offset, fragment_payload_len, fragment_of,
  choose_fragment,
}

leb_le : {m n : ℕ} → leb m n ≡ true → m ≤ n
leb_le h = ground arith

drop-all : (xs : Bytes) → drop (length xs) xs ≡ []
drop-all [] = refl
drop-all (x ∷ xs) = drop-all xs

-- The bytes of the pieces `i`, …, `i + n - 1`, one after the other.
pub join : (ℕ → Bytes) → ℕ → ℕ → Bytes
join piece i zero = []
join piece i (suc n) = piece i ++ join piece (i + 1) n

abbrev pub payload_of : Option NormalizedUnit → Bytes
payload_of none = []
payload_of (some unit) = unit.payload

-- A fragment starts where the one before it ends.
fragment_offset-suc :
    (payload_len i count : ℕ)
    → fragment_offset payload_len i count + fragment_payload_len payload_len i count
      ≡ fragment_offset payload_len (i + 1) count
unfolding fragment_offset fragment_payload_len
fragment_offset-suc payload_len i count =
    let e = add-mul i 1 (payload_len / count) in ground (arith, e)

fragment_offset-zero : (payload_len count : ℕ) → fragment_offset payload_len 0 count ≡ 0
unfolding fragment_offset
fragment_offset-zero payload_len count = ground arith

join-same :
    (p q : ℕ → Bytes) (count i n : ℕ)
    → i + n ≡ count
    → ((k : ℕ) → k < count → p k ≡ q k)
    → join p i n ≡ join q i n
unfolding join
join-same p q count i zero e same = refl
join-same p q count i (suc n) e same =
    rw (same i (omega (arith, e)), join-same p q count (i + 1) n (omega (arith, e)) same) refl

fragment_offset-all :
    (payload_len count : ℕ) → 0 < count → fragment_offset payload_len count count ≡ payload_len
unfolding fragment_offset
fragment_offset-all payload_len count h =
    let e = div-add-mod payload_len count in let l = mod-lt payload_len h in ground (arith, e, l)

required_fragments-enough :
    (payload_len : ℕ) → payload_len ≤ payload_max * required_fragments payload_len
unfolding required_fragments
required_fragments-enough payload_len = ground arith

fragment_payload_len-le :
    (payload_len i count : ℕ)
    → 0 < count
    → required_fragments payload_len ≤ count
    → fragment_payload_len payload_len i count ≤ payload_max
unfolding fragment_payload_len
fragment_payload_len-le payload_len i count pos enough =
    let base = payload_len / count in
    let whole = div-add-mod payload_len count in
    let most = required_fragments-enough payload_len in
    elim (Bool-cases (leb payload_max base)) [
      | inr small ↦ ground (arith, small)
      | inl large ↦
          let full = mul-le-mul_left count (leb_le large) in
          elim (Bool-cases (leb (payload_max + 1) base)) [
            | inl over ↦
                let more = mul-le-mul_left count (leb_le over) in
                absurd (omega (arith, whole, most, more))
            | inr same ↦ ground (arith, same, large, full, whole, most)
          ]
    ]

fragment_of-step :
    (normal : NormalizedUnit) (i count : ℕ)
    → (fragment_of normal i count).payload
        ++ drop
            (fragment_payload_len (length normal.payload) i count)
            (drop (fragment_offset (length normal.payload) i count) normal.payload)
      ≡ drop (fragment_offset (length normal.payload) i count) normal.payload
unfolding fragment_of
fragment_of-step normal i count =
    take-drop (fragment_payload_len (length normal.payload) i count)
      (drop (fragment_offset (length normal.payload) i count) normal.payload)

-- The fragments from `i` on join to the rest of the payload.
join-fragment_of :
    (normal : NormalizedUnit) (count i n : ℕ)
    → 0 < count
    → i + n ≡ count
    → join (λ k. (fragment_of normal k count).payload) i n
      ≡ drop (fragment_offset (length normal.payload) i count) normal.payload
unfolding join
join-fragment_of normal count i zero pos e =
    let l = length normal.payload in
    let at_end : fragment_offset l i count ≡ l =
      ap (λ k. fragment_offset l k count) (omega (arith, e)) ∙ fragment_offset-all l count pos in
    rw at_end (sym (drop-all normal.payload))
join-fragment_of normal count i (suc n) pos e =
    let l = length normal.payload in
    let here = fragment_offset l i count in
    let size = fragment_payload_len l i count in
    rw
      (
        join-fragment_of normal count (i + 1) n pos (omega (arith, e)),
        sym (fragment_offset-suc l i count),
        sym (drop-drop here size normal.payload),
      )
      (fragment_of-step normal i count)

-- The count is 0 or enough fragments.
pub count_fragments-enough :
    (normal : NormalizedUnit) (forced : ℕ)
    → 0 < count_fragments normal forced
    → required_fragments (length normal.payload) ≤ count_fragments normal forced
unfolding count_fragments
count_fragments-enough normal forced pos = ground arith

-- A fragment of a unit of the version.
module _ (normal : NormalizedUnit) (forced : ℕ) where
  abbrev count : ℕ
  count = count_fragments normal forced

  choose_fragment-some :
      (i : ℕ)
      → normal.wire_version ≡ format.wire_version
      → normal.wire_form ≡ form1_id
      → i < count
      → choose_fragment normal i forced ≡ some (fragment_of normal i count)
  unfolding choose_fragment
  choose_fragment-some i version form h = ground arith

-- A unit of the version whose payload needs no more fragments than are asked for is split: each
-- fragment is made, carries 512 bytes at most and is the complete one exactly when it is the last.
pub choose_fragment-fits :
    (normal : NormalizedUnit) (forced i : ℕ)
    → normal.wire_version ≡ format.wire_version
    → normal.wire_form ≡ form1_id
    → i < count_fragments normal forced
    → (fragment : NormalizedUnit) × (choose_fragment normal i forced ≡ some fragment)
      × (length fragment.payload ≤ payload_max)
      × (fragment.complete ≡ leb (count_fragments normal forced) (i + 1))
unfolding fragment_of
choose_fragment-fits normal forced i version form h =
    let count = count_fragments normal forced in
    let l = length normal.payload in
    let size =
      fragment_payload_len-le l i count (omega (arith, h))
        (count_fragments-enough normal forced (omega (arith, h))) in
    (
      fragment_of normal i count,
      choose_fragment-some normal forced i version form h,
      omega (
        arith,
        size,
        length-take (fragment_payload_len l i count)
            (drop (fragment_offset l i count) normal.payload),
      ),
      refl,
    )

-- The payloads of the fragments of a unit, in their order, join to the payload of the unit.
pub choose_fragment-join :
    (normal : NormalizedUnit) (forced : ℕ)
    → normal.wire_version ≡ format.wire_version
    → normal.wire_form ≡ form1_id
    → 0 < count_fragments normal forced
    → join (λ i. payload_of (choose_fragment normal i forced)) 0 (count_fragments normal forced)
      ≡ normal.payload
choose_fragment-join normal forced version form pos =
    let count = count_fragments normal forced in
    let l = length normal.payload in
    join-same (λ i. payload_of (choose_fragment normal i forced))
      (λ i. (fragment_of normal i count).payload) count 0 count (omega arith)
      (λ i h. ap payload_of (choose_fragment-some normal forced i version form h))
    ∙ join-fragment_of normal count 0 count pos (omega arith)
    ∙ ap (λ k. drop k normal.payload) (fragment_offset-zero l count)
