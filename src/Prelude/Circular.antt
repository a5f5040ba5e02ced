-- ===== src/Prelude/Circular.antt =====
-- A table of 64 slots that is used in a circle: the `count` slots from `head` on are in use.
use Prim.Native.Nat.{ℕ, zero, suc, ◌+◌, ◌-◌, ◌%◌, ◌<◌, ◌≤◌}
use mathlib.Core.Path.{◌≡◌, refl, sym, ◌∙◌, ap}
use mathlib.Core.Logic.{◌≢◌}
use mathlib.Core.List.{List, [], ◌∷◌, ◌++◌}
use native.Mathlib.Omega.{arith}
use siglatch.Prelude.Lists.{
  length, get_or, set, get_or-set_self, get_or-set_ne, length-append, length-set,
}

module _ {ℓ} {A : Type ℓ} (d : A) where
  -- What is in use, from the oldest on; `d` is what stands in no slot.
  unfoldable pub contents : List A → ℕ → ℕ → List A
  contents slots head zero = []
  contents slots head (suc n) = contents slots head n ++ (get_or slots ((head + n) % 64) d ∷ [])

  -- A write outside what is in use is not seen.
  pub contents-set_outside :
      (slots : List A) (head n i : ℕ) (v : A)
      → ((k : ℕ) → k < n → i ≢ (head + k) % 64)
      → contents (set slots i v) head n ≡ contents slots head n
  unfolding contents
  contents-set_outside slots head zero i v out = refl
  contents-set_outside slots head (suc n) i v out = rw (
    contents-set_outside slots head n i v (λ k h. out k (omega arith)),
    get_or-set_ne slots v d (out n (omega arith)),
  )

  -- A write into the slot behind what is in use puts the value at the end.
  pub contents-push :
      (slots : List A) (head n : ℕ) (v : A)
      → length slots ≡ 64
      → n < 64
      → contents (set slots ((head + n) % 64) v) head (suc n) ≡ contents slots head n ++ (v ∷ [])
  unfolding contents
  contents-push slots head n v full room = rw (
    contents-set_outside slots head n ((head + n) % 64) v (λ k h. omega arith),
    get_or-set_self slots ((head + n) % 64) v d (omega arith),
  )

  -- The oldest value comes first.
  pub contents-suc :
      (slots : List A) (head n : ℕ)
      → head < 64
      → contents slots head (suc n) ≡ get_or slots head d ∷ contents slots ((head + 1) % 64) n
  unfolding contents
  contents-suc slots head zero h = let e : (head + 0) % 64 ≡ head = omega arith in rw e
  contents-suc slots head (suc n) h =
      let e : (head + suc n) % 64 ≡ ((head + 1) % 64 + n) % 64 = omega arith in
      rw (contents-suc slots head n h, e)

  pub contents-pop :
      (slots : List A) (head n : ℕ) (v : A)
      → head < 64
      → n < 64
      → contents slots head (suc n)
        ≡ get_or slots head d ∷ contents (set slots head v) ((head + 1) % 64) n
  contents-pop slots head n v h room =
      contents-suc slots head n h
      ∙ ap (◌∷◌ (get_or slots head d))
          (sym (contents-set_outside slots ((head + 1) % 64) n head v (λ k q. omega arith)))

  pub length-contents : (slots : List A) (head n : ℕ) → length (contents slots head n) ≡ n
  unfolding contents
  length-contents slots head zero = refl
  length-contents slots head (suc n) = omega (
    arith,
    length-append (contents slots head n) (get_or slots ((head + n) % 64) d ∷ []),
    length-contents slots head n,
  )

-- The bookkeeping of such a table with a head, a tail and a count.
pub record IsCircular {ℓ} {A : Type ℓ} (slots : List A) (head tail count : ℕ) : Type 0 where
  pub full : length slots ≡ 64
  pub head_in : head < 64
  pub tail_at : tail ≡ (head + count) % 64
  pub fits : count ≤ 64

module _ {ℓ} {A : Type ℓ} (d : A) (slots : List A) (head tail count : ℕ)
    (c : IsCircular slots head tail count) where
  pub push-IsCircular :
      (v : A) → count < 64 → IsCircular (set slots tail v) head ((tail + 1) % 64) (count + 1)
  push-IsCircular v room = record {
    full = length-set slots tail v ∙ c.full;
    head_in = c.head_in;
    tail_at = omega (arith, c.tail_at);
    fits = omega arith;
  }

  pub pop-IsCircular :
      (v : A) → 0 < count → IsCircular (set slots head v) ((head + 1) % 64) tail (count - 1)
  pop-IsCircular v some_left = record {
    full = length-set slots head v ∙ c.full;
    head_in = omega arith;
    tail_at = omega (arith, c.tail_at, c.head_in, c.fits);
    fits = omega (arith, c.fits);
  }

  pub push-contents :
      (v : A)
      → count < 64
      → contents d (set slots tail v) head (count + 1) ≡ contents d slots head count ++ (v ∷ [])
  push-contents v room =
      let next : count + 1 ≡ suc count = omega arith in
      rw (next, c.tail_at) (contents-push d slots head count v c.full room)

  pub pop-contents :
      (v : A)
      → 0 < count
      → contents d slots head count
        ≡ get_or slots head d ∷ contents d (set slots head v) ((head + 1) % 64) (count - 1)
  pop-contents v some_left =
      let next : count ≡ suc (count - 1) = omega arith in
      ap (contents d slots head) next
      ∙ contents-pop d slots head (count - 1) v c.head_in (omega (arith, c.fits))
