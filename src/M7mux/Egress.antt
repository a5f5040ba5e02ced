-- ===== src/M7mux/Egress.antt =====
-- src/stdlib/protocol/udp/m7mux/egress/egress.c: outbound datagrams wait in a circle of 64 slots.
-- What the socket answers to each attempt to send is a list of outcomes, in order.
pub mod Fifo
pub mod Flush
mod Tests
use siglatch.Prelude.{
  ℕ, zero, suc, ◌+◌, ◌-◌, ◌%◌, ◌^◌, Bool, true, false, Option, none, some, List, [], ◌∷◌,
  if◌then◌else◌, ltb, leb, ◌==◌, set, get_or, replicate, take, length, contents,
}
use siglatch.M7mux.Packet.{EgressData, zero_egress, packet_buffer_size}

-- `M7MuxEgressState`.
pub record EgressState : Type 0 where
  pub queue : List EgressData
  pub head : ℕ
  pub tail : ℕ
  pub count : ℕ

abbrev pub egress_queue_capacity : ℕ
egress_queue_capacity = 64

unfoldable pub state_init : EgressState
state_init = record {
  queue = replicate egress_queue_capacity zero_egress;
  head = 0;
  tail = 0;
  count = 0;
}

unfoldable pub has_pending : EgressState → Bool
has_pending state = ltb 0 state.count

-- The 64th byte of the address is cut off.
unfoldable pub enqueue : EgressState → EgressData → EgressState × Bool
enqueue state egress =
    if ltb packet_buffer_size (length egress.egress_buffer)
    then (state, false)
    else if leb egress_queue_capacity state.count
    then (state, false)
    else (
      record state {
        queue = set state.queue state.tail (record egress { ip = take 63 egress.ip });
        tail = (state.tail + 1) % egress_queue_capacity;
        count = state.count + 1;
      },
      true,
    )

unfoldable pub stage : EgressState → EgressData → EgressState × Bool
stage state packet =
    if ltb packet_buffer_size (length packet.egress_buffer)
    then (state, false)
    else enqueue state packet

-- The first slot is cleared and left behind.
unfoldable pub drop_first : EgressState → EgressState
drop_first state = record state {
  queue = set state.queue state.head zero_egress;
  head = (state.head + 1) % egress_queue_capacity;
  count = state.count - 1;
}

-- What a flush leaves: the state, the datagrams that were sent, and `flushed`.
pub record Flushed : Type 0 where
  pub state : EgressState
  pub sent : List EgressData
  pub flushed : ℕ

abbrev pub stopped : EgressState → Flushed
stopped state = record { state = state; sent = []; flushed = 0 }

abbrev pub counted_in : EgressData → Flushed → Flushed
counted_in egress f = record f { sent = egress ∷ f.sent; flushed = f.flushed + 1 }

-- The next outcome, and those after it.
abbrev pub head_of : List Bool → Bool
head_of [] = false
head_of (o ∷ outcomes) = o

abbrev pub tail_of : List Bool → List Bool
tail_of [] = []
tail_of (o ∷ outcomes) = outcomes

-- The loop runs while `count` is not 0; each round that goes on takes one off it, so `count` rounds
-- are enough. `usable` says that there is a socket and a sender; an outcome is used up by each
-- attempt, and where there is none left the attempt fails.
unfoldable pub flush_loop : Bool → ℕ → EgressState → List Bool → Flushed
flush_loop usable zero state outcomes = stopped state
flush_loop usable (suc fuel) state outcomes =
    let egress = get_or state.queue state.head zero_egress in
    let skip = flush_loop usable fuel (drop_first state) outcomes in
    let next = counted_in egress (flush_loop usable fuel (drop_first state) (tail_of outcomes)) in
    if state.count == 0
    then stopped state
    else if usable
    then (if length egress.egress_buffer == 0
        then skip
        else if head_of outcomes
        then next
        else stopped state)
    else stopped state

unfoldable pub flush : Bool → EgressState → List Bool → Flushed
flush usable state outcomes = flush_loop usable state.count state outcomes
