-- ===== src/M7mux/Egress/Fifo.antt =====
-- src/stdlib/protocol/udp/m7mux/egress/egress.c: the circle of slots is a queue of at most 64 datagrams.
use siglatch.Prelude.{
  ◌<◌, ◌≤◌, ◌≡◌, true, false, inl, inr, ◌⊎◌, List, [], ◌∷◌, ◌++◌, ltb, leb, take, length,
  length-replicate, contents, length-contents, IsCircular, push-IsCircular, push-contents, arith,
  Bool-cases,
}
use siglatch.M7mux.Packet.{EgressData, zero_egress, packet_buffer_size}
use siglatch.M7mux.Egress.{EgressState, state_init, enqueue, stage}

-- The datagrams that wait, the first to go first.
abbrev pub waiting : EgressState → List EgressData
waiting state = contents zero_egress state.queue state.head state.count

abbrev pub IsValid : EgressState → Type 0
IsValid state = IsCircular state.queue state.head state.tail state.count

pub state_init-IsValid : IsValid state_init
unfolding state_init
state_init-IsValid = record {
  full = length-replicate 64 zero_egress;
  head_in = omega arith;
  tail_at = omega arith;
  fits = omega arith;
}

-- As it is queued: with the address cut to 63 bytes.
abbrev pub queued : EgressData → EgressData
queued egress = record egress { ip = take 63 egress.ip }

-- `stage` puts a datagram of at most 1024 bytes at the end of the queue if fewer than 64 wait;
-- otherwise it answers 0 and changes nothing.
pub stage-waiting :
    (state : EgressState) (packet : EgressData)
    → IsValid state
    → (((stage state packet).1 ≡ true)
        × (length packet.egress_buffer ≤ packet_buffer_size)
        × (length (waiting state) < 64)
        × (waiting (stage state packet).0 ≡ waiting state ++ (queued packet ∷ []))
        × IsValid (stage state packet).0)
      ⊎ ((stage state packet ≡ (state, false))
          × ((packet_buffer_size < length packet.egress_buffer) ⊎ (length (waiting state) ≡ 64)))
unfolding stage enqueue
stage-waiting state packet v =
    let n = length-contents zero_egress state.queue state.head state.count in
    elim (Bool-cases (ltb packet_buffer_size (length packet.egress_buffer))) [
      | inl long ↦ inr (rw long, inl (ground arith))
      | inr short ↦ elim (Bool-cases (leb 64 state.count)) [
        | inl full ↦ inr (rw (short, full), inr (ground (arith, n, v.fits)))
        | inr room ↦ inl (
          rw (short, room),
          ground arith,
          ground (arith, n),
          rw (short, room)
              (push-contents zero_egress state.queue state.head state.tail state.count v
                (queued packet) (ground arith)),
          rw (short, room)
              (push-IsCircular zero_egress state.queue state.head state.tail state.count v
                (queued packet) (ground arith)),
        )
      ]
    ]
