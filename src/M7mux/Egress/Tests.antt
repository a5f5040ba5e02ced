-- ===== src/M7mux/Egress/Tests.antt =====
-- src/stdlib/protocol/udp/m7mux/egress/egress.c: the theorems at inputs.
use siglatch.Prelude.{◌≡◌, ◌<◌, ◌≤◌, ◌⊎◌, refl, true, false, [], ◌∷◌, ◌++◌, length, arith}
use siglatch.M7mux.Packet.{EgressData, zero_egress, packet_buffer_size}
use siglatch.M7mux.Egress.{EgressState, state_init, stage, enqueue, flush}
use siglatch.M7mux.Egress.Fifo.{waiting, IsValid, queued, stage-waiting}
use siglatch.M7mux.Egress.Flush.{TakesFront, flush-TakesFront, flush-empties}

abbrev hello : EgressData
hello = record zero_egress { egress_buffer = 104 ∷ 105 ∷ [] }

staged : EgressState
staged = (stage (stage state_init hello).0 zero_egress).0

staged-IsValid : IsValid staged
unfolding staged stage enqueue state_init
staged-IsValid = record {
  full = refl;
  head_in = omega arith;
  tail_at = omega arith;
  fits = omega arith;
}

stage-waiting_example :
    (((stage staged hello).1 ≡ true)
      × (length hello.egress_buffer ≤ packet_buffer_size)
      × (length (waiting staged) < 64)
      × (waiting (stage staged hello).0 ≡ waiting staged ++ (queued hello ∷ []))
      × IsValid (stage staged hello).0)
    ⊎ ((stage staged hello ≡ (staged, false))
        × ((packet_buffer_size < length hello.egress_buffer) ⊎ (length (waiting staged) ≡ 64)))
stage-waiting_example = stage-waiting staged hello staged-IsValid

flush-TakesFront_example : TakesFront staged (flush true staged (true ∷ []))
flush-TakesFront_example = flush-TakesFront true staged (true ∷ []) staged-IsValid

flush-empties_example : waiting (flush true staged (true ∷ true ∷ [])).state ≡ []
unfolding staged stage enqueue state_init
flush-empties_example = flush-empties staged (true ∷ true ∷ []) (refl, (refl, tt))
