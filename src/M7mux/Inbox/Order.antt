-- ===== src/M7mux/Inbox/Order.antt =====
-- The order of what comes out of src/stdlib/protocol/udp/m7mux/inbox/inbox.c.
use siglatch.Prelude.{
  ℕ, ◌≡◌, refl, ap, sym, subst, ◌∙◌, Bool, Option, none, List, [], ◌∷◌, ◌++◌, All,
}
use siglatch.M7mux.Packet.{UserData, Control, RecvPacket}
use siglatch.M7mux.Ingress.{Datagram, Arrival, Waited}
use siglatch.M7mux.Stream.{StreamState, state_init}
use siglatch.M7mux.Stream
use siglatch.M7mux.Stream.Delivery.{Call, ingests, drains, expires, pumps, step, run}
use siglatch.M7mux.Stream.Delivery
use siglatch.M7mux.Stream.Order.{
  IsSmall, InOrder, handed_out, emitted, deliveries, deliveries-state_init-InOrder,
}
use siglatch.M7mux.Inbox.{InboxState, Clock, pump, drain}
use siglatch.M7mux.Inbox.Ran.{IsQuiet, IsNormalizer, pump-Ran}

-- A call of the inbox's table: `pump` with what its clock and socket show, or `drain`.
data InboxCall : Type 0 where
  pumps_in : Clock → Waited → List (Option Arrival) → InboxCall
  drains_out : Bool → InboxCall

module _ (copy : ℕ → UserData → Option UserData)
    (normalize : Datagram → Control → Control × Option RecvPacket) where
  unfoldable inbox_step : InboxState → InboxCall → InboxState
  inbox_step state (pumps_in clock waited turns) = (pump normalize clock waited turns state).0
  inbox_step state (drains_out buffer) = (drain copy buffer state).0

  abbrev handed : InboxState → InboxCall → List RecvPacket
  handed state (pumps_in clock waited turns) = []
  handed state (drains_out buffer) = handed_out (drain copy buffer state).1

  -- What a client gets from an inbox over a sequence of calls.
  unfoldable inbox_deliveries : InboxState → List InboxCall → List RecvPacket
  inbox_deliveries state [] = []
  inbox_deliveries state (c ∷ cs) = handed state c ++ inbox_deliveries (inbox_step state c) cs

module _ (copy : ℕ → UserData → Option UserData) where
  -- Quiet calls before others change what is handed out only through the state.
  deliveries-quiet :
      (state : StreamState) (xs ys : List Call)
      → All IsQuiet xs
      → deliveries copy state (xs ++ ys) ≡ deliveries copy (run copy state xs) ys
  unfolding deliveries emitted run
  deliveries-quiet state [] ys quiet = refl
  deliveries-quiet state (ingests packet ∷ xs) ys (q, quiet) =
      deliveries-quiet (step copy state (ingests packet)) xs ys quiet
  deliveries-quiet state (drains buffer ∷ xs) ys (q, quiet) = absurd q
  deliveries-quiet state (expires now_ms ∷ xs) ys (q, quiet) =
      deliveries-quiet (step copy state (expires now_ms)) xs ys quiet
  deliveries-quiet state (pumps now_ms ∷ xs) ys (q, quiet) =
      deliveries-quiet (step copy state (pumps now_ms)) xs ys quiet

quiet-IsSmall : (xs ys : List Call) → All IsQuiet xs → All IsSmall ys → All IsSmall (xs ++ ys)
quiet-IsSmall [] ys quiet small = small
quiet-IsSmall (ingests packet ∷ xs) ys (q, quiet) small = (q, quiet-IsSmall xs ys quiet small)
quiet-IsSmall (drains buffer ∷ xs) ys (q, quiet) small = absurd q
quiet-IsSmall (expires now_ms ∷ xs) ys (q, quiet) small = (tt, quiet-IsSmall xs ys quiet small)
quiet-IsSmall (pumps now_ms ∷ xs) ys (q, quiet) small = (tt, quiet-IsSmall xs ys quiet small)

module _ (copy : ℕ → UserData → Option UserData)
    (normalize : Datagram → Control → Control × Option RecvPacket)
    (normal_counts : IsNormalizer normalize) where
  -- The calls that the stream takes below those of the inbox.
  inbox_deliveries-stream :
      (state : InboxState) (calls : List InboxCall)
      → (cs : List Call) × All IsSmall cs
        × (inbox_deliveries copy normalize state calls ≡ deliveries copy state.stream cs)
  unfolding inbox_deliveries inbox_step deliveries emitted step drain
  inbox_deliveries-stream state [] = ([], tt, refl)
  inbox_deliveries-stream state (pumps_in clock waited turns ∷ calls) =
      let after = (pump normalize clock waited turns state).0 in
      let (cs, small, same) = inbox_deliveries-stream after calls in
      let (xs, quiet, ran) = pump-Ran copy normalize normal_counts clock waited turns state in
      (
        xs ++ cs,
        quiet-IsSmall xs cs quiet small,
        same
            ∙ ap (λ s. deliveries copy s cs) (sym ran)
            ∙ sym (deliveries-quiet copy state.stream xs cs quiet),
      )
  inbox_deliveries-stream state (drains_out buffer ∷ calls) =
      let after = (drain copy buffer state).0 in
      let (cs, small, same) = inbox_deliveries-stream after calls in
      (
        drains buffer ∷ cs,
        (tt, small),
        ap (λ r. handed_out (Stream.Delivery.drain copy buffer state.stream).1 ++ r) same,
      )

  -- Whatever datagrams arrive and however `pump` and `drain` alternate from an inbox whose stream is
  -- fresh: the fragments of several that come out of one stream of one session are in order, each the
  -- fragment 0 of its message or the one after the fragment of the same message that came out last.
  inbox_deliveries-InOrder :
      (sid stream_id : ℕ) (state : InboxState) (calls : List InboxCall)
      → state.stream ≡ state_init
      → InOrder sid stream_id none (inbox_deliveries copy normalize state calls)
  inbox_deliveries-InOrder sid stream_id state calls fresh =
      let (cs, small, same) = inbox_deliveries-stream state calls in
      subst (InOrder sid stream_id none) (sym (same ∙ ap (λ s. deliveries copy s cs) fresh))
        (deliveries-state_init-InOrder copy sid stream_id cs small)
