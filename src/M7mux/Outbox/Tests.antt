-- ===== src/M7mux/Outbox/Tests.antt =====
-- src/stdlib/protocol/udp/m7mux/outbox/outbox.c: the theorems at inputs, with an adapter of one byte
-- to a fragment.
use siglatch.Prelude.{ℕ, refl, true, false, Option, none, some, [], ◌∷◌, arith}
use siglatch.M7mux.Packet.{SendPacket, EgressData, zero_egress}
use siglatch.M7mux.Egress.{state_init}
use siglatch.M7mux.Egress.Fifo.{IsValid}
use siglatch.M7mux.Outbox.{Adapter, stage_fragments}
use siglatch.M7mux.Outbox.Atomic.{FitsAdapter, IsAtomic, stage_fragments-IsAtomic}

abbrev encode_index : SendPacket → ℕ → ℕ → Option EgressData
encode_index send index forced = some (record zero_egress { egress_buffer = index ∷ [] })

abbrev encode_first : SendPacket → Option EgressData
encode_first send = encode_index send 0 0

abbrev indexing : Adapter
indexing = record {
  count_fragments = λ send. 2;
  encode = encode_first;
  encode_fragment = some encode_index;
}

indexing-FitsAdapter : FitsAdapter indexing
indexing-FitsAdapter = record {
  whole = λ send e h. ground arith;
  fragment = λ f send i forced e g h. ground arith;
}

state_init-IsValid : IsValid state_init
unfolding state_init
state_init-IsValid = record {
  full = refl;
  head_in = omega arith;
  tail_at = omega arith;
  fits = omega arith;
}

abbrev hello : SendPacket
hello = record {
  trace_id = 1;
  label = [];
  wire_version = 4;
  wire_form = 1;
  received_ms = 0;
  session_id = 3;
  message_id = 1;
  stream_id = 1;
  fragment_index = 0;
  fragment_count = 0;
  timestamp = 0;
  ip = [];
  client_port = 4000;
  encrypted = false;
  wire_auth = false;
  user = none;
}

stage_fragments-IsAtomic_example :
    IsAtomic indexing hello 3 3 true state_init
      (stage_fragments (some indexing) true state_init hello 3)
stage_fragments-IsAtomic_example =
    stage_fragments-IsAtomic indexing true state_init hello 3 indexing-FitsAdapter
      state_init-IsValid
