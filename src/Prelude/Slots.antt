-- ===== src/Prelude/Slots.antt =====
-- Searches and counts over a table of slots: the loops `for (i = 0; i < CAPACITY; ++i)`.
use Prim.Native.Nat.{ℕ, zero, suc, ◌+◌, ◌<◌, ◌≤◌}
use mathlib.Core.Path.{◌≡◌, refl}
use mathlib.Core.Bool.{Bool, true, false, not}
use mathlib.Core.List.{List, [], ◌∷◌}
use mathlib.Core.Option.{Option, none, some}
use native.Mathlib.Omega.{arith}
use mathlib.Core.Logic.{inl, inr}
use siglatch.Prelude.Tests.{if◌then◌else◌, to_nat, Bool-cases}
use siglatch.Prelude.Lists.{length, get_elem?, set, replicate}

module _ {ℓ} {A : Type ℓ} where
  -- The same slot, seen from a table with one more slot in front.
  abbrev next_slot : Option (ℕ × A) → Option (ℕ × A)
  next_slot none = none
  next_slot (some (i, x)) = some (suc i, x)

  -- The first slot that passes the test: its index and what it holds.
  unfoldable pub find_slot : (A → Bool) → List A → Option (ℕ × A)
  find_slot p [] = none
  find_slot p (x ∷ xs) = if p x then some (0, x) else next_slot (find_slot p xs)

  -- How many slots pass the test.
  unfoldable pub count_if : (A → Bool) → List A → ℕ
  count_if p [] = 0
  count_if p (x ∷ xs) = to_nat (p x) + count_if p xs

  abbrev pub All {κ} : (A → Type κ) → List A → Type κ
  All P [] = Unit
  All P (x ∷ xs) = P x × All P xs

module _ {ℓ} {A : Type ℓ} (p : A → Bool) where
  pub find_slot-some :
      (xs : List A) (i : ℕ) (x : A)
      → find_slot p xs ≡ some (i, x)
      → (get_elem? xs i ≡ some x) × (p x ≡ true)
  unfolding find_slot
  find_slot-some [] i x h = absurd (cc)
  find_slot-some (y ∷ xs) zero x h = ground arith
  find_slot-some (y ∷ xs) (suc i) x h = ground (arith, find_slot-some xs i x)

  pub find_slot-none :
      (xs : List A) (i : ℕ) (x : A) → find_slot p xs ≡ none → get_elem? xs i ≡ some x → p x ≡ false
  unfolding find_slot
  find_slot-none [] i x h g = absurd (cc)
  find_slot-none (y ∷ xs) zero x h g = ground arith
  find_slot-none (y ∷ xs) (suc i) x h g = find_slot-none xs i x (ground arith) g

  pub count_if-set :
      (xs : List A) (i : ℕ) (x v : A)
      → get_elem? xs i ≡ some x
      → count_if p (set xs i v) + to_nat (p x) ≡ count_if p xs + to_nat (p v)
  unfolding count_if
  count_if-set [] i x v g = absurd (cc)
  count_if-set (y ∷ xs) zero x v g = ground arith
  count_if-set (y ∷ xs) (suc i) x v g = omega (arith, count_if-set xs i x v g)

  pub count_if-le-length : (xs : List A) → count_if p xs ≤ length xs
  unfolding count_if
  count_if-le-length [] = omega arith
  count_if-le-length (x ∷ xs) = ground (arith, count_if-le-length xs)

  pub count_if-replicate : (n : ℕ) (a : A) → p a ≡ false → count_if p (replicate n a) ≡ 0
  unfolding count_if
  count_if-replicate zero a h = refl
  count_if-replicate (suc n) a h = ground (arith, count_if-replicate n a)

  -- A table with fewer matches than slots has a slot without one.
  pub find_slot-of_room :
      (xs : List A)
      → count_if p xs < length xs
      → (s : ℕ × A) × (find_slot (λ x. not (p x)) xs ≡ some s)
  unfolding count_if find_slot
  find_slot-of_room [] h = absurd (omega arith)
  find_slot-of_room (x ∷ xs) h = elim (Bool-cases (p x)) [
    | inl e ↦ let ((i, y), f) = find_slot-of_room xs (ground arith) in ((suc i, y), rw (e, f))
    | inr e ↦ ((0, x), rw e)
  ]

  -- A write that changes no answer of the test leaves the search as it was.
  pub find_slot-set_other :
      (xs : List A) (i : ℕ) (x v : A)
      → get_elem? xs i ≡ some x
      → p x ≡ false
      → p v ≡ false
      → find_slot p (set xs i v) ≡ find_slot p xs
  unfolding find_slot
  find_slot-set_other [] i x v g f f' = refl
  find_slot-set_other (y ∷ xs) zero x v g f f' = ground arith
  find_slot-set_other (y ∷ xs) (suc i) x v g f f' =
      ground (arith, find_slot-set_other xs i x v g f f')

  -- The slot that was found is found again after a write into it that passes the test.
  pub find_slot-set_here :
      (xs : List A) (i : ℕ) (x v : A)
      → find_slot p xs ≡ some (i, x)
      → p v ≡ true
      → find_slot p (set xs i v) ≡ some (i, v)
  unfolding find_slot
  find_slot-set_here [] i x v h t = absurd (cc)
  find_slot-set_here (y ∷ xs) zero x v h t = ground arith
  find_slot-set_here (y ∷ xs) (suc i) x v h t = ground (arith, find_slot-set_here xs i x v)

  -- Where nothing passes the test, what is written and passes it is found.
  pub find_slot-set_fresh :
      (xs : List A) (i : ℕ) (x v : A)
      → find_slot p xs ≡ none
      → get_elem? xs i ≡ some x
      → p v ≡ true
      → find_slot p (set xs i v) ≡ some (i, v)
  unfolding find_slot
  find_slot-set_fresh [] i x v h g t = absurd (cc)
  find_slot-set_fresh (y ∷ xs) zero x v h g t = ground arith
  find_slot-set_fresh (y ∷ xs) (suc i) x v h g t = ground (arith, find_slot-set_fresh xs i x v)
