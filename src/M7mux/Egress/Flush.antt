-- ===== src/M7mux/Egress/Flush.antt =====
-- src/stdlib/protocol/udp/m7mux/egress/egress.c: what `_flush_egress` sends, and what it keeps.
use siglatch.Prelude.{
  ℕ, zero, suc, ◌≤◌, ◌<◌, ◌≡◌, refl, ap, Bool, true, false, inl, inr, List, [], ◌∷◌, ◌++◌,
  if◌then◌else◌, ◌==◌, get_or, length, contents, pop-IsCircular, pop-contents, arith, Bool-cases,
}
use siglatch.M7mux.Packet.{EgressData, zero_egress}
use siglatch.M7mux.Egress.{
  EgressState, drop_first, Flushed, stopped, counted_in, head_of, tail_of, flush_loop, flush,
}
use siglatch.M7mux.Egress.Fifo.{waiting, IsValid}

-- The datagrams that have something to send.
abbrev pub filled : List EgressData → List EgressData
filled [] = []
filled (e ∷ es) = if length e.egress_buffer == 0 then filled es else e ∷ filled es

-- A flush takes datagrams off the front, in order: the empty ones are dropped, the others are sent.
pub record TakesFront (before : EgressState) (f : Flushed) : Type 0 where
  pub gone : List EgressData
  pub split : waiting before ≡ gone ++ waiting f.state
  pub sent : f.sent ≡ filled gone
  pub flushed : f.flushed ≡ length f.sent
  pub valid : IsValid f.state

nothing-TakesFront : (state : EgressState) → IsValid state → TakesFront state (stopped state)
nothing-TakesFront state v = record {
  gone = [];
  split = refl;
  sent = refl;
  flushed = refl;
  valid = v;
}

module _ (state : EgressState) (v : IsValid state) (more : 0 < state.count) where
  abbrev front : EgressData
  front = get_or state.queue state.head zero_egress

  drop_first-IsValid : IsValid (drop_first state)
  unfolding drop_first
  drop_first-IsValid =
      pop-IsCircular zero_egress state.queue state.head state.tail state.count v zero_egress more

  drop_first-waiting : waiting state ≡ front ∷ waiting (drop_first state)
  unfolding drop_first
  drop_first-waiting =
      pop-contents zero_egress state.queue state.head state.tail state.count v zero_egress more

  skip-TakesFront :
      (f : Flushed)
      → (length front.egress_buffer == 0) ≡ true
      → TakesFront (drop_first state) f
      → TakesFront state f
  skip-TakesFront f empty t = record {
    gone = front ∷ t.gone;
    split = rw (drop_first-waiting, t.split);
    sent = rw empty t.sent;
    flushed = t.flushed;
    valid = t.valid;
  }

  send-TakesFront :
      (f : Flushed)
      → (length front.egress_buffer == 0) ≡ false
      → TakesFront (drop_first state) f
      → TakesFront state (counted_in front f)
  send-TakesFront f full t = record {
    gone = front ∷ t.gone;
    split = rw (drop_first-waiting, t.split);
    sent = rw full (ap (◌∷◌ front) t.sent);
    flushed = omega (arith, t.flushed);
    valid = t.valid;
  }

flush_loop-TakesFront :
    (usable : Bool) (fuel : ℕ) (state : EgressState) (outcomes : List Bool)
    → IsValid state
    → TakesFront state (flush_loop usable fuel state outcomes)
unfolding flush_loop
flush_loop-TakesFront usable zero state outcomes v = nothing-TakesFront state v
flush_loop-TakesFront usable (suc fuel) state outcomes v = elim (Bool-cases (state.count == 0)) [
  | inl done ↦ rw done (nothing-TakesFront state v)
  | inr more ↦ elim (Bool-cases usable) [
    | inr down ↦ rw (more, down) (nothing-TakesFront state v)
    | inl up ↦
        let lots : 0 < state.count = ground arith in
        let rest = drop_first-IsValid state v lots in
        elim (Bool-cases (length (front state v lots).egress_buffer == 0)) [
          | inl empty ↦
              rw (more, up, empty)
                (skip-TakesFront state v lots _ empty
                  (flush_loop-TakesFront usable fuel (drop_first state) outcomes rest))
          | inr full ↦ elim (Bool-cases (head_of outcomes)) [
            | inr failed ↦ rw (more, up, full, failed) (nothing-TakesFront state v)
            | inl sent ↦
                rw (more, up, full, sent)
                  (send-TakesFront state v lots _ full
                    (flush_loop-TakesFront usable fuel (drop_first state) (tail_of outcomes) rest))
          ]
        ]
  ]
]

-- Whatever the socket answers, `flush` takes a run of datagrams off the front of the queue, sends
-- those of them that are not empty, in order, returns how many it sent, and keeps the rest.
pub flush-TakesFront :
    (usable : Bool) (state : EgressState) (outcomes : List Bool)
    → IsValid state
    → TakesFront state (flush usable state outcomes)
unfolding flush
flush-TakesFront usable state outcomes v = flush_loop-TakesFront usable state.count state outcomes v

-- Every attempt succeeds, and there are `n` of them.
abbrev pub Succeeds : ℕ → List Bool → Type 0
Succeeds zero outcomes = Unit
Succeeds (suc n) outcomes = (head_of outcomes ≡ true) × Succeeds n (tail_of outcomes)

Succeeds-fewer : (n : ℕ) (outcomes : List Bool) → Succeeds (suc n) outcomes → Succeeds n outcomes
Succeeds-fewer zero outcomes s = tt
Succeeds-fewer (suc n) outcomes s = (s.0, Succeeds-fewer n (tail_of outcomes) s.1)

flush_loop-empties :
    (fuel : ℕ) (state : EgressState) (outcomes : List Bool)
    → state.count ≤ fuel
    → Succeeds fuel outcomes
    → (flush_loop true fuel state outcomes).state.count ≡ 0
unfolding flush_loop
flush_loop-empties zero state outcomes enough s = omega arith
flush_loop-empties (suc fuel) state outcomes enough s = elim (Bool-cases (state.count == 0)) [
  | inl done ↦ rw done (ground arith)
  | inr more ↦
      let fewer : (drop_first state).count ≤ fuel = unfold drop_first in ground arith in
      elim (Bool-cases (length (get_or state.queue state.head zero_egress).egress_buffer == 0)) [
        | inl empty ↦
            rw (more, empty)
              (flush_loop-empties fuel (drop_first state) outcomes fewer
                (Succeeds-fewer fuel outcomes s))
        | inr full ↦
            rw (more, full, s.0)
              (flush_loop-empties fuel (drop_first state) (tail_of outcomes) fewer s.1)
      ]
]

-- With a usable socket on which every attempt succeeds, `flush` leaves nothing waiting.
pub flush-empties :
    (state : EgressState) (outcomes : List Bool)
    → Succeeds state.count outcomes
    → waiting (flush true state outcomes).state ≡ []
unfolding flush contents
flush-empties state outcomes s = rw (flush_loop-empties state.count state outcomes (omega arith) s)
