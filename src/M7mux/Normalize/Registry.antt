-- ===== src/M7mux/Normalize/Registry.antt =====
-- The registry of src/stdlib/protocol/udp/m7mux/normalize/adapter/adapter.c.
use siglatch.Prelude.{
  ℕ, zero, suc, ◌≡◌, ◌≢◌, refl, ap, ◌∙◌, none, some, List, [], ◌∷◌, get_elem?, arith,
}
use mathlib.Core.Option.{some-injective}
use siglatch.M7mux.Ingress.{Datagram, Identity}
use siglatch.M7mux.Normalize.{NormalizeAdapter, demux}

-- Where one codec alone takes a datagram, it is found, wherever it stands in the registry.
pub demux-detected :
    (adapters : List NormalizeAdapter) (ingress : Datagram) (i : ℕ) (a : NormalizeAdapter)
    (identity : Identity)
    → get_elem? adapters i ≡ some a
    → a.detect ingress ≡ some identity
    → ((j : ℕ) (b : NormalizeAdapter)
        → get_elem? adapters j ≡ some b
        → j ≢ i
        → b.detect ingress ≡ none)
    → demux adapters ingress ≡ some (a, identity)
unfolding demux
demux-detected [] ingress i a identity at found alone = absurd (cc)
demux-detected (x ∷ adapters) ingress zero a identity at found alone =
    let same : x ≡ a = some-injective x a at in
    let takes : x.detect ingress ≡ some identity =
      ap (λ (y : NormalizeAdapter). y.detect ingress) same ∙ found in
    rw (takes, demux) (ap (λ (y : NormalizeAdapter). some (y, identity)) same)
demux-detected (x ∷ adapters) ingress (suc i) a identity at found alone =
    rw (alone 0 x refl (λ e. absurd (omega (arith, e))), demux)
      (demux-detected adapters ingress i a identity at found
        (λ j b there differ. alone (suc j) b there (λ e. differ (omega (arith, e)))))
