-- ===== src/Policy/Access.antt =====
-- src/siglatch/app/policy/policy.c: whether a request's address is allowed. Of the server, the user and
-- the action only their lists of allowed ranges are read: a list is what is below its count.
use siglatch.Prelude.{
  ℕ, zero, suc, ◌≡◌, ◌≢◌, ◌↔◌, refl, Bool, true, false, not, inl, inr, ◌⊎◌, Option, some, List, [],
  ◌∷◌, if◌then◌else◌, ◌==◌, length, get_elem?, arith, Bool-cases,
}
use siglatch.M7mux.Packet.{Bytes}
use siglatch.Policy.Range.{contains_spec_ipv4}

-- The three tests of a request, one after the other.
passed :
    (x y z : Bool)
    → (if not x then false else if not y then false else if not z then false else true) ≡ true
    → (x ≡ true) × (y ≡ true) × (z ≡ true)
passed true true true h = (refl, refl, refl)
passed true true false h = absurd (cc)
passed true false z h = absurd (cc)
passed false y z h = absurd (cc)

passes :
    (x y z : Bool)
    → x ≡ true
    → y ≡ true
    → z ≡ true
    → (if not x then false else if not y then false else if not z then false else true) ≡ true
passes x y z a b c = rw (a, b, c) refl

module _ (isspace : ℕ → Bool) (inet_pton : Bytes → Option ℕ) (strtoul : Bytes → ℕ × Bytes) where
  -- The loop over the ranges.
  unfoldable pub any_contains : List Bytes → Bytes → Bool
  any_contains [] ip = false
  any_contains (spec ∷ specs) ip =
      let rest = any_contains specs ip in
      if contains_spec_ipv4 isspace inet_pton strtoul spec ip then true else rest

  unfoldable pub server_ip_allowed : List Bytes → Bytes → Bool
  server_ip_allowed allowed_ips ip =
      if length ip == 0
      then false
      else if length allowed_ips == 0
      then true
      else any_contains allowed_ips ip

  unfoldable pub user_ip_allowed : List Bytes → Bytes → Bool
  user_ip_allowed allowed_ips ip =
      if length ip == 0
      then false
      else if length allowed_ips == 0
      then true
      else any_contains allowed_ips ip

  unfoldable pub action_ip_allowed : List Bytes → Bytes → Bool
  action_ip_allowed allowed_ips ip =
      if length ip == 0
      then false
      else if length allowed_ips == 0
      then true
      else any_contains allowed_ips ip

  unfoldable pub request_ip_allowed : List Bytes → List Bytes → List Bytes → Bytes → Bool
  request_ip_allowed server_ips user_ips action_ips ip =
      if length ip == 0
      then false
      else if not (server_ip_allowed server_ips ip)
      then false
      else if not (user_ip_allowed user_ips ip)
      then false
      else if not (action_ip_allowed action_ips ip)
      then false
      else true

  -- The list does not restrict, or one of its ranges contains the address.
  abbrev pub IsAdmitted : List Bytes → Bytes → Type 0
  IsAdmitted specs ip =
      (specs ≡ [])
      ⊎ ((i : ℕ) × (spec : Bytes) × (get_elem? specs i ≡ some spec)
          × (contains_spec_ipv4 isspace inet_pton strtoul spec ip ≡ true))

  any_contains-some :
      (specs : List Bytes) (ip : Bytes)
      → any_contains specs ip ≡ true
      → (i : ℕ) × (spec : Bytes) × (get_elem? specs i ≡ some spec)
        × (contains_spec_ipv4 isspace inet_pton strtoul spec ip ≡ true)
  unfolding any_contains
  any_contains-some [] ip h = absurd (cc)
  any_contains-some (spec ∷ specs) ip h =
      elim (Bool-cases (contains_spec_ipv4 isspace inet_pton strtoul spec ip)) [
        | inl e ↦ (0, spec, refl, e)
        | inr e ↦ let (i, s, g, k) = any_contains-some specs ip (rw e at h) in (suc i, s, g, k)
      ]

  any_contains-true :
      (specs : List Bytes) (ip : Bytes) (i : ℕ) (spec : Bytes)
      → get_elem? specs i ≡ some spec
      → contains_spec_ipv4 isspace inet_pton strtoul spec ip ≡ true
      → any_contains specs ip ≡ true
  unfolding any_contains
  any_contains-true [] ip i spec g h = absurd (cc)
  any_contains-true (s ∷ specs) ip zero spec g h = ground arith
  any_contains-true (s ∷ specs) ip (suc i) spec g h =
      ground (arith, any_contains-true specs ip i spec g h)

  allowed_iff :
      (specs : List Bytes) (ip : Bytes)
      → ((if length specs == 0 then true else any_contains specs ip) ≡ true) ↔ IsAdmitted specs ip
  allowed_iff [] ip = (λ h. inl refl, λ h. refl)
  allowed_iff (s ∷ specs) ip =
      let restricts : (length (s ∷ specs) == 0) ≡ false = ground arith in
      rw restricts (
        λ h. inr (any_contains-some (s ∷ specs) ip h),
        λ h. elim h [
          | inl e ↦ absurd (cc)
          | inr (i, spec, g, k) ↦ any_contains-true (s ∷ specs) ip i spec g k
        ],
      )

  -- A request from an address is allowed exactly if the server, the user and the action each admit the
  -- address, and one without an address never is.
  pub request_ip_allowed_iff :
      (server_ips user_ips action_ips : List Bytes) (ip : Bytes)
      → (request_ip_allowed server_ips user_ips action_ips ip ≡ true)
        ↔ ((ip ≢ []) × IsAdmitted server_ips ip × IsAdmitted user_ips ip × IsAdmitted action_ips ip)
  unfolding request_ip_allowed server_ip_allowed user_ip_allowed action_ip_allowed
  request_ip_allowed_iff server_ips user_ips action_ips [] =
      (λ h. absurd (ground arith), λ (ne, s, u, a). absurd (ne refl))
  request_ip_allowed_iff server_ips user_ips action_ips (c ∷ cs) =
      let given : (length (c ∷ cs) == 0) ≡ false = ground arith in
      let (sf, st) = allowed_iff server_ips (c ∷ cs) in
      let (uf, ut) = allowed_iff user_ips (c ∷ cs) in
      let (af, admits) = allowed_iff action_ips (c ∷ cs) in
      rw given (
        λ h. let (s, u, a) = passed _ _ _ h in (λ e. absurd (cc), sf s, uf u, af a),
        λ (ne, s, u, a). passes _ _ _ (st s) (ut u) (admits a),
      )
