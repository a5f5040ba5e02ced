-- ===== src/M7mux/Ingress/Fifo.antt =====
-- src/stdlib/protocol/udp/m7mux/ingress/ingress.c: the circle of slots is a queue of datagrams.
use siglatch.Prelude.{
  ℕ, zero, suc, ◌+◌, ◌-◌, ◌<◌, ◌≡◌, refl, sym, ◌∙◌, ap, Bool, true, false, ◌||◌, inl, inr, ◌⊎◌,
  Option, none, some, List, [], ◌∷◌, ◌++◌, ltb, leb, ◌==◌, take, get_or, length, contents,
  length-contents, IsCircular, push-IsCircular, push-contents, pop-IsCircular, pop-contents, arith,
  Bool-cases,
}
use mathlib.Core.List.{append_assoc, append-nil}
use siglatch.M7mux.Ingress.{
  Datagram, IngressState, zero_datagram, queue_push, queue_pop, drain, Arrival, ingress_of,
  pump_loop, pump, pumped_of, is_readable,
}

-- The datagrams that wait, the first to go first.
abbrev pub waiting : IngressState → List Datagram
waiting state = contents zero_datagram state.queue state.queue_head state.queue_count

abbrev pub IsValid : IngressState → Type 0
IsValid state = IsCircular state.queue state.queue_head state.queue_tail state.queue_count

-- What is received before the first turn that fails.
abbrev pub received : List (Option Arrival) → List Datagram
received [] = []
received (none ∷ turns) = []
received (some a ∷ turns) = ingress_of a ∷ received turns

queue_push-waiting :
    (state : IngressState) (d : Datagram)
    → IsValid state
    → state.queue_count < 64
    → ((queue_push state d).1 ≡ true)
      × (waiting (queue_push state d).0 ≡ waiting state ++ (d ∷ []))
      × ((queue_push state d).0.queue_count ≡ state.queue_count + 1)
      × IsValid (queue_push state d).0
unfolding queue_push
queue_push-waiting state d v room =
    let e : leb 64 state.queue_count ≡ false = ground arith in
    rw e (
      refl,
      push-contents zero_datagram state.queue state.queue_head state.queue_tail state.queue_count v
          d room,
      refl,
      push-IsCircular zero_datagram state.queue state.queue_head state.queue_tail state.queue_count
          v d room,
    )

take-nil : (n : ℕ) → take {A = Datagram} n [] ≡ []
take-nil zero = refl
take-nil (suc n) = refl

answered : (queued : Bool) (n : ℕ) → true ≡ (queued || ltb 0 (suc n))
answered true n = refl
answered false n = ground arith

pump_loop-waiting :
    (turns : List (Option Arrival)) (state : IngressState) (queued : Bool)
    → IsValid state
    → let taken = take (64 - state.queue_count) (received turns) in
      (waiting (pump_loop state turns queued).0 ≡ waiting state ++ taken)
      × ((pump_loop state turns queued).1 ≡ (queued || ltb 0 (length taken)))
      × IsValid (pump_loop state turns queued).0
unfolding pump_loop
pump_loop-waiting [] state queued v =
    rw (take-nil (64 - state.queue_count)) (sym (append-nil (waiting state)), ground arith, v)
pump_loop-waiting (none ∷ turns) state queued v =
    rw (take-nil (64 - state.queue_count)) (sym (append-nil (waiting state)), ground arith, v)
pump_loop-waiting (some a ∷ turns) state queued v = elim (Bool-cases (ltb state.queue_count 64)) [
  | inr full ↦
      let nothing : 64 - state.queue_count ≡ 0 = ground arith in
      rw (full, nothing) (sym (append-nil (waiting state)), ground arith, v)
  | inl room ↦
      let (pushed, grown, counted, valid) =
        queue_push-waiting state (ingress_of a) v (ground arith) in
      let (order, answer, valid') =
        pump_loop-waiting turns (queue_push state (ingress_of a)).0 true valid in
      let left : 64 - state.queue_count
          ≡ suc (64 - (queue_push state (ingress_of a)).0.queue_count) =
        ground (arith, counted) in
      rw (room, pushed, left)
        (
          order ∙ rw grown (append_assoc (waiting state) (ingress_of a ∷ []) _),
          answer ∙ answered queued _,
          valid',
        )
]

pump-opened :
    (state : IngressState) (fd : ℕ) (turns : List (Option Arrival))
    → state.socket_fd ≡ some fd
    → state.queue_count ≡ 0
    → pump state is_readable turns
      ≡ ((pump_loop state turns false).0, pumped_of (pump_loop state turns false).1)
unfolding pump
pump-opened state fd turns open_socket empty =
    let idle : ltb 0 state.queue_count ≡ false = ground arith in ground arith

-- A pump of an open socket that is readable, with an empty queue, queues what arrives before the first
-- failure, in order and up to 64 datagrams, and answers 1 exactly if that is anything.
pub pump-waiting :
    (state : IngressState) (fd : ℕ) (turns : List (Option Arrival))
    → IsValid state
    → state.socket_fd ≡ some fd
    → waiting state ≡ []
    → (waiting (pump state is_readable turns).0 ≡ take 64 (received turns))
      × ((pump state is_readable turns).1 ≡ pumped_of (ltb 0 (length (take 64 (received turns)))))
      × IsValid (pump state is_readable turns).0
pump-waiting state fd turns v open_socket empty =
    let n : state.queue_count ≡ 0 = ground (
      arith,
      length-contents zero_datagram state.queue state.queue_head state.queue_count,
      ap length empty,
    ) in
    let all : 64 - state.queue_count ≡ 64 = omega arith in
    let (order, answer, valid) = pump_loop-waiting turns state false v in
    rw (pump-opened state fd turns open_socket n)
      (order ∙ rw (empty, all) refl, ap pumped_of (answer ∙ rw all refl), valid)

-- `drain` takes the datagram at the front, or answers 0 where none waits and changes nothing.
pub drain-front :
    (state : IngressState)
    → IsValid state
    → ((drain state ≡ (state, none)) × (waiting state ≡ []))
      ⊎ ((d : Datagram) × ((drain state).1 ≡ some d)
          × (waiting state ≡ d ∷ waiting (drain state).0)
          × IsValid (drain state).0)
unfolding drain queue_pop contents
drain-front state v = elim (Bool-cases (state.queue_count == 0)) [
  | inl e ↦
      let none_left : state.queue_count ≡ 0 = ground arith in inl (rw e refl, rw none_left refl)
  | inr e ↦
      let some_left : 0 < state.queue_count = ground arith in
      inr (
        get_or state.queue state.queue_head zero_datagram,
        rw e refl,
        rw e (
            pop-contents zero_datagram state.queue state.queue_head state.queue_tail
              state.queue_count v zero_datagram some_left),
        rw e (
            pop-IsCircular zero_datagram state.queue state.queue_head state.queue_tail
              state.queue_count v zero_datagram some_left),
      )
]
