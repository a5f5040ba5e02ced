-- ===== src/M7mux/Normalize/Admission.antt =====
-- What src/stdlib/protocol/udp/m7mux/normalize/normalize.c lets through.
use siglatch.Prelude.{
  ◌<◌, ◌≡◌, refl, sym, subst, Option, Bool, true, false, none, some, List, [], ◌∷◌, All, length,
  inl, inr, Option-cases, Bool-cases, arith,
}
use siglatch.M7mux.Packet.{UserData, Control, RecvPacket, packet_buffer_size}
use siglatch.M7mux.Ingress.{Datagram, Identity}
use siglatch.M7mux.Normalize.{
  NormalizeAdapter, enforce_yes, enforce_no, enforce_any, demux, with_user, adapter_decode,
  EnforceEncryption, encryption_allowed, raw_copy, addressed, configure_ingress_identity,
  normalize_with, normalize_packet,
}
use siglatch.M7mux.Normalize.Outcome.{
  IsFirst, marked, Obeys, Disobeys, IsUndecoded, IsRaw, IsNormalized,
}

demux-IsFirst :
    (adapters : List NormalizeAdapter) (ingress : Datagram) (adapter : NormalizeAdapter)
    (identity : Identity)
    → demux adapters ingress ≡ some (adapter, identity)
    → IsFirst adapters ingress adapter identity
unfolding demux
demux-IsFirst [] ingress adapter identity h = absurd (cc)
demux-IsFirst (a ∷ adapters) ingress adapter identity h = elim (Option-cases (a.detect ingress)) [
  | inl e ↦ inr (e, demux-IsFirst adapters ingress adapter identity (rw e at h))
  | inr (found, e) ↦ inl (ground (arith, e, h))
]

demux-none :
    (adapters : List NormalizeAdapter) (ingress : Datagram)
    → demux adapters ingress ≡ none
    → All (λ (a : NormalizeAdapter). a.detect ingress ≡ none) adapters
unfolding demux
demux-none [] ingress h = tt
demux-none (a ∷ adapters) ingress h = elim (Option-cases (a.detect ingress)) [
  | inl e ↦ (e, demux-none adapters ingress (rw e at h))
  | inr (found, e) ↦ absurd (ground (arith, e, h))
]

encryption_allowed-Obeys :
    (policy : EnforceEncryption) (server_secure encrypted : Bool)
    → encryption_allowed policy server_secure encrypted ≡ true
    → Obeys policy server_secure encrypted
unfolding encryption_allowed
encryption_allowed-Obeys enforce_yes server_secure encrypted h = h
encryption_allowed-Obeys enforce_no server_secure true h = absurd (cc)
encryption_allowed-Obeys enforce_no server_secure false h = refl
encryption_allowed-Obeys enforce_any true encrypted h = h
encryption_allowed-Obeys enforce_any false encrypted h = tt

encryption_allowed-Disobeys :
    (policy : EnforceEncryption) (server_secure encrypted : Bool)
    → encryption_allowed policy server_secure encrypted ≡ false
    → Disobeys policy server_secure encrypted
unfolding encryption_allowed
encryption_allowed-Disobeys enforce_yes server_secure encrypted h = h
encryption_allowed-Disobeys enforce_no server_secure true h = refl
encryption_allowed-Disobeys enforce_no server_secure false h = absurd (cc)
encryption_allowed-Disobeys enforce_any true encrypted h = h
encryption_allowed-Disobeys enforce_any false encrypted h = absurd (cc)

raw_copy-IsRaw :
    (ingress : Datagram) (out : RecvPacket) → raw_copy ingress ≡ some out → IsRaw ingress out
unfolding raw_copy
raw_copy-IsRaw ingress out h = ground arith

raw_copy-none :
    (ingress : Datagram) → raw_copy ingress ≡ none → packet_buffer_size < length ingress.buffer
unfolding raw_copy
raw_copy-none ingress h = ground arith

raw_copy-IsNormalized :
    (adapters : List NormalizeAdapter) (policy : EnforceEncryption) (server_secure allocated : Bool)
    (ingress : Datagram) (control : Control)
    → IsUndecoded adapters allocated ingress control
    → IsNormalized adapters policy server_secure allocated ingress control (raw_copy ingress)
raw_copy-IsNormalized adapters policy server_secure allocated ingress control why =
    elim (Option-cases (raw_copy ingress)) [
      | inl e ↦
          subst (IsNormalized adapters policy server_secure allocated ingress control) (sym e)
            (inl (raw_copy-none ingress e, why))
      | inr (out, e) ↦
          subst (IsNormalized adapters policy server_secure allocated ingress control) (sym e)
            (inl (raw_copy-IsRaw ingress out e, why))
    ]

with_user-some :
    (o : Option RecvPacket) (out : RecvPacket)
    → with_user o ≡ some out
    → (o ≡ some out) × ((user : UserData) × (out.user ≡ some user))
with_user-some none out h = absurd (cc)
with_user-some (some p) out h = elim (Option-cases p.user) [
  | inl e ↦ absurd (ground (arith, e, h))
  | inr (user, e) ↦ (ground (arith, e, h), (user, ground (arith, e, h)))
]

-- What is decoded comes from the codec and has a user part.
adapter_decode-made :
    (allocated : Bool) (adapter : NormalizeAdapter) (ingress : Datagram) (control : Control)
    (out : RecvPacket)
    → (adapter_decode allocated adapter ingress control).1 ≡ some out
    → ((adapter.decode ingress control).1 ≡ some out) × ((user : UserData) × (out.user ≡ some user))
unfolding adapter_decode
adapter_decode-made false adapter ingress control out h = absurd (cc)
adapter_decode-made true adapter ingress control out h =
    with_user-some (adapter.decode ingress control).1 out h

normalize_with-IsNormalized :
    (adapters : List NormalizeAdapter) (policy : EnforceEncryption) (server_secure allocated : Bool)
    (adapter : NormalizeAdapter) (identity : Identity) (ingress : Datagram) (control : Control)
    → IsFirst adapters ingress adapter identity
    → IsNormalized adapters policy server_secure allocated ingress control
        (normalize_with policy server_secure allocated adapter identity ingress control).1
unfolding normalize_with addressed configure_ingress_identity
normalize_with-IsNormalized adapters policy server_secure allocated adapter identity ingress control
      taken =
    let configured = marked ingress identity in
    elim (Option-cases (adapter_decode allocated adapter configured control).1) [
      | inl e ↦
          rw (e, normalize_with)
            (raw_copy-IsNormalized adapters policy server_secure allocated ingress control
              (inr (adapter, identity, taken, e)))
      | inr (p, e) ↦
          let (made, (user, has)) = adapter_decode-made allocated adapter configured control p e in
          elim (Bool-cases (encryption_allowed policy server_secure identity.encrypted)) [
            | inl a ↦
                rw (e, normalize_with)
                  (rw (a, normalize_with)
                    (inr (record {
                      adapter = adapter;
                      identity = identity;
                      decoded = p;
                      user = user;
                      taken = taken;
                      made = made;
                      has_user = has;
                      obeys = encryption_allowed-Obeys policy server_secure identity.encrypted a;
                      same = refl;
                    })))
            | inr r ↦
                rw (e, normalize_with)
                  (rw (r, normalize_with)
                    (inr (
                      adapter,
                      identity,
                      p,
                      taken,
                      made,
                      encryption_allowed-Disobeys policy server_secure identity.encrypted r,
                    )))
          ]
    ]

-- A datagram gives one of two packets, or none. Where no codec takes it, or the first that does fails to
-- decode it, it gives its bytes as a raw packet for stream 1, unless they are more than 1024. Otherwise
-- it gives what the first codec that takes it decodes, with a user part and under the datagram's address,
-- if that is encrypted as the policy, or else the server, demands, and nothing if it is not.
pub normalize_packet-IsNormalized :
    (adapters : List NormalizeAdapter) (policy : EnforceEncryption) (server_secure allocated : Bool)
    (ingress : Datagram) (control : Control)
    → IsNormalized adapters policy server_secure allocated ingress control
        (normalize_packet adapters policy server_secure allocated ingress control).1
unfolding normalize_packet
normalize_packet-IsNormalized adapters policy server_secure allocated ingress control =
    elim (Option-cases (demux adapters ingress)) [
      | inl e ↦
          rw (e, normalize_packet)
            (raw_copy-IsNormalized adapters policy server_secure allocated ingress control
              (inl (demux-none adapters ingress e)))
      | inr ((adapter, identity), e) ↦
          rw (e, normalize_packet)
            (normalize_with-IsNormalized adapters policy server_secure allocated adapter identity
              ingress control (demux-IsFirst adapters ingress adapter identity e))
    ]
