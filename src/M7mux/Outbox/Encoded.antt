-- ===== src/M7mux/Outbox/Encoded.antt =====
-- src/stdlib/protocol/udp/m7mux/outbox/outbox.c: what the datagrams of a packet are, and why one cannot be
-- made.
use siglatch.Prelude.{
  ℕ, zero, suc, ◌+◌, ◌%◌, ◌^◌, ◌≤◌, ◌<◌, ◌≡◌, ◌≢◌, refl, Bool, false, inl, inr, ◌⊎◌, Option, none,
  some, List, [], ◌∷◌, length, arith, Option-cases, All,
}
use siglatch.M7mux.Packet.{SendPacket, EgressData, packet_buffer_size}
use siglatch.M7mux.Egress.{EgressState}
use siglatch.M7mux.Egress.Fifo.{waiting}
use siglatch.M7mux.Outbox.{Adapter, put_first, encode_all}

-- A datagram fits the buffer that it is encoded into.
abbrev pub FitsBuffer : EgressData → Type 0
FitsBuffer e = length e.egress_buffer ≤ packet_buffer_size

put_first-some :
    (e : EgressData) (o : Option (List EgressData)) (es : List EgressData)
    → put_first e o ≡ some es
    → (rest : List EgressData) × (o ≡ some rest) × (es ≡ e ∷ rest)
put_first-some e none es h = absurd (cc)
put_first-some e (some rest) es h = (rest, refl, ground arith)

-- The datagrams are the encodings of the fragments `i`, `i + 1`, … of `count`, in this order.
abbrev pub AreFragments :
    (SendPacket → ℕ → ℕ → Option EgressData) → SendPacket → ℕ → ℕ → ℕ → List EgressData → Type 0
AreFragments f send count forced i [] = Unit
AreFragments f send count forced i (e ∷ es) =
    (f (record send { fragment_index = i % 2 ^ 32; fragment_count = count % 2 ^ 32 }) i forced
      ≡ some e)
    × AreFragments f send count forced (i + 1) es

-- The datagrams of a packet in `count` fragments, where `forced` is the number asked for, or 0.
abbrev pub IsEncoded : Adapter → SendPacket → ℕ → ℕ → List EgressData → Type 0
IsEncoded adapter send count forced es =
    (length es ≡ count)
    × (((count ≡ 1) × ((e : EgressData) × (adapter.encode send ≡ some e) × (es ≡ e ∷ [])))
        ⊎ ((count ≢ 1)
            × ((f : SendPacket → ℕ → ℕ → Option EgressData) × (adapter.encode_fragment ≡ some f)
                × AreFragments f send count forced 0 es)))

pub encode_all-fits :
    (f : SendPacket → ℕ → ℕ → Option EgressData) (send : SendPacket) (count forced i n : ℕ)
    (es : List EgressData)
    → ((s : SendPacket) (k m : ℕ) (e : EgressData) → f s k m ≡ some e → FitsBuffer e)
    → encode_all f send count forced i n ≡ some es
    → All FitsBuffer es × (length es ≡ n) × AreFragments f send count forced i es
unfolding encode_all
encode_all-fits f send count forced i zero [] fit h = (tt, refl, tt)
encode_all-fits f send count forced i zero (e ∷ es) fit h = absurd (cc)
encode_all-fits f send count forced i (suc n) es fit h =
    let send' : SendPacket = record send {
      fragment_index = i % 2 ^ 32;
      fragment_count = count % 2 ^ 32;
    } in
    elim (Option-cases (f send' i forced)) [
      | inl none_made ↦ absurd (ground arith)
      | inr (e, made) ↦
          let h' : put_first e (encode_all f send count forced (i + 1) n) ≡ some es =
            rw (made, encode_all) at h in
          let (rest, r, split) =
            put_first-some e (encode_all f send count forced (i + 1) n) es h' in
          let (fits, k, are) = encode_all-fits f send count forced (i + 1) n rest fit r in
          rw split ((fit send' i forced e made, fits), omega (arith, k), (made, are))
    ]

-- A fragment among the `i`, …, `i + n - 1` of `count` that cannot be encoded.
abbrev pub Lacks : (SendPacket → ℕ → ℕ → Option EgressData) → SendPacket → ℕ → ℕ → ℕ → ℕ → Type 0
Lacks f send count forced i n =
    (k : ℕ) × (i ≤ k)
    × (k < i + n)
    × (f (record send { fragment_index = k % 2 ^ 32; fragment_count = count % 2 ^ 32 }) k forced
        ≡ none)

put_first-none : (e : EgressData) (o : Option (List EgressData)) → put_first e o ≡ none → o ≡ none
put_first-none e none h = refl
put_first-none e (some es) h = absurd (cc)

pub encode_all-Lacks :
    (f : SendPacket → ℕ → ℕ → Option EgressData) (send : SendPacket) (count forced i n : ℕ)
    → encode_all f send count forced i n ≡ none
    → Lacks f send count forced i n
unfolding encode_all
encode_all-Lacks f send count forced i zero h = absurd (cc)
encode_all-Lacks f send count forced i (suc n) h =
    let send' : SendPacket = record send {
      fragment_index = i % 2 ^ 32;
      fragment_count = count % 2 ^ 32;
    } in
    elim (Option-cases (f send' i forced)) [
      | inl none_made ↦ (i, omega arith, omega arith, none_made)
      | inr (e, made) ↦
          let h' : put_first e (encode_all f send count forced (i + 1) n) ≡ none =
            rw (made, encode_all) at h in
          let (k, above, below, lacks) =
            encode_all-Lacks f send count forced (i + 1) n
              (put_first-none e (encode_all f send count forced (i + 1) n) h') in
          (k, omega (arith, above), omega (arith, below), lacks)
    ]

-- Why nothing is staged: no datagram is asked for, there is no room for all, or one cannot be made.
pub data Unstaged (adapter : Adapter) (send : SendPacket) (count forced : ℕ) (allocated : Bool)
    (state : EgressState) : Type 0 where
  not_asked : count ≡ 0 → Unstaged adapter send count forced allocated state
  no_room : 64 < length (waiting state) + count → Unstaged adapter send count forced allocated state
  not_encoded :
      count ≡ 1 → adapter.encode send ≡ none → Unstaged adapter send count forced allocated state
  no_fragments :
      count ≢ 1
      → adapter.encode_fragment ≡ none
      → Unstaged adapter send count forced allocated state
  no_memory : count ≢ 1 → allocated ≡ false → Unstaged adapter send count forced allocated state
  fragment_lacks :
      (f : SendPacket → ℕ → ℕ → Option EgressData)
      → count ≢ 1
      → adapter.encode_fragment ≡ some f
      → Lacks f send count forced 0 count
      → Unstaged adapter send count forced allocated state
