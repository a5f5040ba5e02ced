-- ===== src/M7mux/Outbox/Atomic.antt =====
-- src/stdlib/protocol/udp/m7mux/outbox/outbox.c: a packet is staged whole or not at all.
use mathlib.Core.List.{append_assoc, append-nil}
use siglatch.Prelude.{
  ℕ, ◌+◌, ◌-◌, ◌≤◌, ◌≡◌, ◌≢◌, refl, sym, subst, ◌∙◌, ap, Bool, true, false, inl, inr, ◌⊎◌, Option,
  none, some, List, [], ◌∷◌, ◌++◌, map, if◌then◌else◌, ltb, leb, ◌==◌, length, length-append,
  length-contents, arith, Bool-cases, Option-cases, All,
}
use siglatch.M7mux.Packet.{SendPacket, EgressData, zero_egress}
use siglatch.M7mux.Egress.{EgressState, egress_queue_capacity}
use siglatch.M7mux.Egress
use siglatch.M7mux.Egress.Fifo.{waiting, IsValid, queued, stage-waiting}
use siglatch.M7mux.Outbox.{
  Adapter, stage_all, encode_all, stage_encoded, stage_common, stage, stage_fragments,
}
use siglatch.M7mux.Outbox.Encoded.{
  IsEncoded, encode_all-fits, encode_all-Lacks, Unstaged, not_asked, no_room, not_encoded,
  no_fragments, no_memory, fragment_lacks, FitsBuffer,
}

-- Where there is room for all, all are staged, in order.
stage_all-waiting :
    (es : List EgressData) (state : EgressState)
    → IsValid state
    → All FitsBuffer es
    → length (waiting state) + length es ≤ 64
    → ((stage_all state es).1 ≡ true)
      × (waiting (stage_all state es).0 ≡ waiting state ++ map queued es)
      × IsValid (stage_all state es).0
unfolding stage_all
stage_all-waiting [] state v fits room = (refl, sym (append-nil (waiting state)), v)
stage_all-waiting (e ∷ es) state v (fit, fits) room = elim (stage-waiting state e v) [
  | inr (same, why) ↦ absurd (ground arith)
  | inl (staged, _, _, grown, valid) ↦
      let more : length (waiting (Egress.stage state e).0) + length es ≤ 64 =
        omega (arith, ap length grown, length-append (waiting state) (queued e ∷ [])) in
      let (all, order, v') = stage_all-waiting es (Egress.stage state e).0 valid fits more in
      rw staged
        (all, order ∙ rw grown (append_assoc (waiting state) (queued e ∷ []) (map queued es)), v')
]

-- What an adapter encodes goes into a buffer of 1024 bytes.
pub record FitsAdapter (adapter : Adapter) : Type 0 where
  pub whole : (send : SendPacket) (e : EgressData) → adapter.encode send ≡ some e → FitsBuffer e
  pub fragment :
      (f : SendPacket → ℕ → ℕ → Option EgressData) (send : SendPacket) (i forced : ℕ)
      (e : EgressData)
      → adapter.encode_fragment ≡ some f
      → f send i forced ≡ some e
      → FitsBuffer e

-- Nothing happens for a reason and the answer is 0, or the packet's datagrams are put at the end of the
-- queue.
abbrev pub IsAtomic :
    Adapter → SendPacket → ℕ → ℕ → Bool → EgressState → EgressState × Bool → Type 0
IsAtomic adapter send count forced allocated state r =
    ((r ≡ (state, false)) × Unstaged adapter send count forced allocated state)
    ⊎ ((es : List EgressData) × (r.1 ≡ true)
        × IsEncoded adapter send count forced es
        × (waiting r.0 ≡ waiting state ++ map queued es)
        × IsValid r.0)

module _ (adapter : Adapter) (fits : FitsAdapter adapter) (allocated : Bool) (state : EgressState)
    (v : IsValid state) (send : SendPacket) where
  single-IsAtomic :
      (forced : ℕ) (o : Option EgressData)
      → adapter.encode send ≡ o
      → IsAtomic adapter send 1 forced allocated state
          (elim o [ none ↦ (state, false) | some e ↦ Egress.stage state e ])
  single-IsAtomic forced none h = inl (refl, not_encoded refl h)
  single-IsAtomic forced (some e) h = elim (stage-waiting state e v) [
    | inr (same, why) ↦
        let small = fits.whole send e h in inl (same, no_room (ground (arith, why, small)))
    | inl (staged, _, _, grown, valid) ↦
        inr (e ∷ [], staged, (refl, inl (refl, (e, h, refl))), grown, valid)
  ]

  several-IsAtomic :
      (count forced : ℕ) (f : SendPacket → ℕ → ℕ → Option EgressData)
      → adapter.encode_fragment ≡ some f
      → count ≢ 1
      → length (waiting state) + count ≤ 64
      → (o : Option (List EgressData)) → encode_all f send count forced 0 count ≡ o
      → IsAtomic adapter send count forced allocated state
          (elim o [ none ↦ (state, false) | some es ↦ stage_all state es ])
  several-IsAtomic count forced f has many room none h =
      inl (refl, fragment_lacks f many has (encode_all-Lacks f send count forced 0 count h))
  several-IsAtomic count forced f has many room (some es) h =
      let (fit, k, are) =
        encode_all-fits f send count forced 0 count es (λ s i m e. fits.fragment f s i m e has) h in
      let (all, order, valid) = stage_all-waiting es state v fit (omega (arith, k)) in
      inr (es, all, (k, inr (many, (f, has, are))), order, valid)

  stage_encoded-several :
      (count forced : ℕ) (f : SendPacket → ℕ → ℕ → Option EgressData)
      → adapter.encode_fragment ≡ some f
      → (count == 1) ≡ false
      → allocated ≡ true
      → stage_encoded adapter allocated state send count forced
        ≡ (elim (encode_all f send count forced 0 count) [
          | none ↦ (state, false)
          | some es ↦ stage_all state es
        ])
  unfolding stage_encoded
  stage_encoded-several count forced f has many found =
      rw (many, stage_encoded) (rw (has, stage_encoded) (rw found refl))

  stage_encoded-IsAtomic :
      (count forced : ℕ)
      → length (waiting state) + count ≤ 64
      → IsAtomic adapter send count forced allocated state
          (stage_encoded adapter allocated state send count forced)
  unfolding stage_encoded
  stage_encoded-IsAtomic count forced room = elim (Bool-cases (count == 1)) [
    | inl one ↦
        let is_one : count ≡ 1 = ground arith in
        rw (one, is_one) (single-IsAtomic forced (adapter.encode send) refl)
    | inr many ↦ elim (Option-cases adapter.encode_fragment) [
      | inl lacks ↦ inl (
        rw (many, stage_encoded) (rw (lacks, stage_encoded) refl),
        no_fragments (ground (arith, many)) lacks,
      )
      | inr (f, has) ↦ elim (Bool-cases allocated) [
        | inr full ↦ inl (
          rw (many, stage_encoded) (rw (has, stage_encoded) (rw full refl)),
          no_memory (ground (arith, many)) full,
        )
        | inl found ↦
            subst (IsAtomic adapter send count forced allocated state)
              (sym (stage_encoded-several count forced f has many found))
              (several-IsAtomic count forced f has (ground (arith, many)) room _ refl)
      ]
    ]
  ]

  waiting-count : length (waiting state) ≡ state.count
  waiting-count = length-contents zero_egress state.queue state.head state.count

  stage_common-IsAtomic :
      (force_count : ℕ)
      → IsAtomic adapter send
          (if ltb 1 force_count then force_count else adapter.count_fragments send)
          (if ltb 1 force_count then force_count else 0)
          allocated
          state
          (stage_common (some adapter) allocated state send force_count)
  unfolding stage_common
  stage_common-IsAtomic force_count =
      let count = if ltb 1 force_count then force_count else adapter.count_fragments send in
      elim (Bool-cases (count == 0)) [
        | inl e ↦ rw (e, stage_common) (inl (refl, not_asked (ground (arith, e))))
        | inr e ↦ elim (Bool-cases (leb egress_queue_capacity state.count)) [
          | inl f ↦
              rw (e, stage_common)
                (rw (f, stage_common) (inl (refl, no_room (ground (arith, e, f, waiting-count)))))
          | inr f ↦ elim (Bool-cases (ltb (egress_queue_capacity - state.count) count)) [
            | inl g ↦
                rw (e, stage_common)
                  (rw (f, stage_common)
                    (rw (g, stage_common)
                      (inl (refl, no_room (ground (arith, f, g, waiting-count))))))
            | inr g ↦
                rw (e, stage_common)
                  (rw (f, stage_common)
                    (rw (g, stage_common)
                      (stage_encoded-IsAtomic count (if ltb 1 force_count then force_count else 0)
                        (ground (arith, waiting-count)))))
          ]
        ]
      ]

-- With an adapter whose datagrams fit a buffer, staging a packet in `count` fragments, or in as many as
-- the adapter counts where `count` is below 2, puts its datagrams at the end of the egress queue: the
-- encoding of the packet itself for one, and for several those of the fragments 0, 1, … in their order,
-- each marked with its number and the count. Or it answers 0 and does nothing at all: then no datagram is
-- asked for, there is no room for all of them, or memory or the adapter fails to make one.
pub stage_fragments-IsAtomic :
    (adapter : Adapter) (allocated : Bool) (state : EgressState) (send : SendPacket) (count : ℕ)
    → FitsAdapter adapter
    → IsValid state
    → IsAtomic adapter send
        (if ltb 1 count then count else adapter.count_fragments send)
        (if ltb 1 count then count else 0)
        allocated
        state
        (stage_fragments (some adapter) allocated state send count)
unfolding stage_fragments stage
stage_fragments-IsAtomic adapter allocated state send count fits v =
    elim (Bool-cases (leb count 1)) [
      | inl e ↦
          let f : ltb 1 count ≡ false = ground arith in
          rw (e, stage_fragments)
            (rw f (stage_common-IsAtomic adapter fits allocated state v send 0))
      | inr e ↦
          rw (e, stage_fragments) (stage_common-IsAtomic adapter fits allocated state v send count)
    ]
