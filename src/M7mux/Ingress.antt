-- ===== src/M7mux/Ingress.antt =====
-- src/stdlib/protocol/udp/m7mux/ingress/ingress.c: datagrams from the socket wait in a circle of 64
-- slots. The socket is a parameter: what the first wait answers, and what the turns of the loop find.
pub mod Fifo
mod Tests
use siglatch.Prelude.{
  ℕ, ◌+◌, ◌-◌, ◌%◌, Bool, true, false, Option, none, some, List, [], ◌∷◌, if◌then◌else◌, ltb, leb,
  ◌==◌, set, get_or, replicate,
}
use siglatch.M7mux.Packet.{Bytes}

-- `M7MuxIngress`; the buffer carries `len`.
pub record Datagram : Type 0 where
  pub buffer : Bytes
  pub received_ms : ℕ
  pub ip : Bytes
  pub client_port : ℕ
  pub encrypted : Bool
  pub magic : ℕ
  pub version : ℕ
  pub form : ℕ

-- `M7MuxIngressIdentity`: what a codec finds in a datagram's prefix.
pub record Identity : Type 0 where
  pub encrypted : Bool
  pub magic : ℕ
  pub version : ℕ
  pub form : ℕ

-- `M7MuxIngressState`; `none` is the descriptor -1.
pub record IngressState : Type 0 where
  pub socket_fd : Option ℕ
  pub queue : List Datagram
  pub queue_head : ℕ
  pub queue_tail : ℕ
  pub queue_count : ℕ

abbrev pub ingress_queue_capacity : ℕ
ingress_queue_capacity = 64

abbrev pub zero_datagram : Datagram
zero_datagram = record {
  buffer = [];
  received_ms = 0;
  ip = [];
  client_port = 0;
  encrypted = false;
  magic = 0;
  version = 0;
  form = 0;
}

unfoldable pub state_init : IngressState
state_init = record {
  socket_fd = none;
  queue = replicate ingress_queue_capacity zero_datagram;
  queue_head = 0;
  queue_tail = 0;
  queue_count = 0;
}

unfoldable pub state_reset : IngressState → IngressState
state_reset state = state_init

unfoldable pub has_pending : IngressState → Bool
has_pending state = ltb 0 state.queue_count

unfoldable pub queue_push : IngressState → Datagram → IngressState × Bool
queue_push state ingress =
    if leb ingress_queue_capacity state.queue_count then (state, false) else (
      record {
        socket_fd = state.socket_fd;
        queue = set state.queue state.queue_tail ingress;
        queue_head = state.queue_head;
        queue_tail = (state.queue_tail + 1) % ingress_queue_capacity;
        queue_count = state.queue_count + 1;
      },
      true,
    )

unfoldable pub queue_pop : IngressState → IngressState × Option Datagram
queue_pop state = if state.queue_count == 0 then (state, none) else (
  record {
    socket_fd = state.socket_fd;
    queue = set state.queue state.queue_head zero_datagram;
    queue_head = (state.queue_head + 1) % ingress_queue_capacity;
    queue_tail = state.queue_tail;
    queue_count = state.queue_count - 1;
  },
  some (get_or state.queue state.queue_head zero_datagram),
)

unfoldable pub drain : IngressState → IngressState × Option Datagram
drain state = queue_pop state

-- A datagram as `recv`, the clock and the peer's address give it.
pub record Arrival : Type 0 where
  pub buffer : Bytes
  pub received_ms : ℕ
  pub ip : Bytes
  pub client_port : ℕ

abbrev pub ingress_of : Arrival → Datagram
ingress_of a = record zero_datagram {
  buffer = a.buffer;
  received_ms = a.received_ms;
  ip = a.ip;
  client_port = a.client_port;
}

-- The loop of `m7mux_ingress_pump`. A turn finds a datagram, or `none` where `recv` or the peer's
-- address fails; after the last turn nothing is readable.
unfoldable pub pump_loop : IngressState → List (Option Arrival) → Bool → IngressState × Bool
pump_loop state [] queued = (state, queued)
pump_loop state (none ∷ turns) queued = (state, queued)
pump_loop state (some a ∷ turns) queued =
    let pushed = queue_push state (ingress_of a) in
    let rest = pump_loop pushed.0 turns true in
    if ltb state.queue_count ingress_queue_capacity
    then (if pushed.1 then rest else (pushed.0, queued))
    else (state, queued)

-- What the wait for the socket answers: above, at or below 0.
pub data Waited : Type 0 where
  is_readable timed_out wait_failed : Waited

-- What `m7mux_ingress_pump` answers: 1, 0 or the wait's number below 0.
pub data Pumped : Type 0 where
  has_queued queued_none pump_failed : Pumped

abbrev pub pumped_of : Bool → Pumped
pumped_of true = has_queued
pumped_of false = queued_none

abbrev pub pump_waited : IngressState → Waited → List (Option Arrival) → IngressState × Pumped
pump_waited state is_readable turns =
    let looped = pump_loop state turns false in (looped.0, pumped_of looped.1)
pump_waited state timed_out turns = (state, queued_none)
pump_waited state wait_failed turns = (state, pump_failed)

unfoldable pub pump : IngressState → Waited → List (Option Arrival) → IngressState × Pumped
pump state waited turns = elim state.socket_fd [
  | none ↦ (state, queued_none)
  | some fd ↦
      if ltb 0 state.queue_count then (state, has_queued) else pump_waited state waited turns
]
