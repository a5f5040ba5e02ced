-- ===== src/M7mux/Ingress/Tests.antt =====
-- src/stdlib/protocol/udp/m7mux/ingress/ingress.c: the theorems at inputs.
use siglatch.Prelude.{
  ◌≡◌, refl, true, Option, none, some, List, [], ◌∷◌, length-replicate, contents, arith,
}
use siglatch.M7mux.Ingress.{
  IngressState, zero_datagram, state_init, Arrival, ingress_of, pump, pumped_of, is_readable,
}
use siglatch.M7mux.Ingress.Fifo.{waiting, IsValid, pump-waiting}

-- A socket is set.
opened : IngressState
opened = record state_init { socket_fd = some 3 }

abbrev hello : Arrival
hello = record { buffer = 104 ∷ []; received_ms = 7; ip = 49 ∷ []; client_port = 4000 }

-- The second datagram's receipt fails, so the third is left in the socket.
abbrev turns : List (Option Arrival)
turns = some hello ∷ none ∷ some hello ∷ []

opened-IsValid : IsValid opened
unfolding opened state_init contents
opened-IsValid = record {
  full = length-replicate 64 zero_datagram;
  head_in = omega arith;
  tail_at = omega arith;
  fits = omega arith;
}

pump-waiting_example :
    (waiting (pump opened is_readable turns).0 ≡ ingress_of hello ∷ [])
    × ((pump opened is_readable turns).1 ≡ pumped_of true)
    × IsValid (pump opened is_readable turns).0
unfolding opened state_init contents
pump-waiting_example = pump-waiting opened 3 turns opened-IsValid refl refl
