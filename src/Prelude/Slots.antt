-- ===== src/Prelude/Slots.antt =====
-- Lists as vectors: writing an element, swapping two, and dropping the last.
use Prim.Native.Nat.{ℕ, zero, suc, ◌-◌, ◌<◌}
use mathlib.Core.Path.{◌≡◌, refl, ap}
use mathlib.Core.Bool.{◌&&◌}
use mathlib.Core.Option.{Option, none, some}
use mathlib.Core.List.{List, [], ◌∷◌, ◌++◌}
use native.Mathlib.Omega.{arith}
use cpp_reactor_framework.Prelude.Tests.{ltb, ◌==◌, if◌then◌else◌}
use cpp_reactor_framework.Prelude.Lists.{length, get_elem?, take}

module _ {ℓ} {A : Type ℓ} where
  unfoldable pub set_at : ℕ → A → List A → List A
  set_at i a [] = []
  set_at zero a (x ∷ xs) = a ∷ xs
  set_at (suc i) a (x ∷ xs) = x ∷ set_at i a xs

  abbrev swapped : ℕ → ℕ → Option A → Option A → List A → List A
  swapped i j (some a) (some b) xs = set_at i b (set_at j a xs)
  swapped i j none b xs = xs
  swapped i j (some a) none xs = xs

  -- `std::swap(xs[i], xs[j])`.
  unfoldable pub swap : ℕ → ℕ → List A → List A
  swap i j xs = swapped i j (get_elem? xs i) (get_elem? xs j) xs

  unfoldable pub pop_back : List A → List A
  pop_back xs = take (length xs - 1) xs

  pub length-set_at : (i : ℕ) (a : A) (xs : List A) → length (set_at i a xs) ≡ length xs
  unfolding set_at
  length-set_at i a [] = refl
  length-set_at zero a (x ∷ xs) = refl
  length-set_at (suc i) a (x ∷ xs) = ap suc (length-set_at i a xs)

  pub get_elem?-set_at :
      (i j : ℕ) (a : A) (xs : List A)
      → get_elem? (set_at i a xs) j
        ≡ (if j == i && ltb i (length xs) then some a else get_elem? xs j)
  unfolding set_at
  get_elem?-set_at i j a [] = ground arith
  get_elem?-set_at zero zero a (x ∷ xs) = ground arith
  get_elem?-set_at zero (suc j) a (x ∷ xs) = ground arith
  get_elem?-set_at (suc i) zero a (x ∷ xs) = ground arith
  get_elem?-set_at (suc i) (suc j) a (x ∷ xs) = ground (arith, get_elem?-set_at i j a xs)

  pub get_elem?-take :
      (n j : ℕ) (xs : List A) → get_elem? (take n xs) j ≡ (if ltb j n then get_elem? xs j else none)
  get_elem?-take zero j xs = ground arith
  get_elem?-take (suc n) j [] = ground arith
  get_elem?-take (suc n) zero (x ∷ xs) = ground arith
  get_elem?-take (suc n) (suc j) (x ∷ xs) = ground (arith, get_elem?-take n j xs)

  pub get_elem?-append_one :
      (xs : List A) (a : A) (j : ℕ)
      → get_elem? (xs ++ (a ∷ [])) j ≡ (if j == length xs then some a else get_elem? xs j)
  get_elem?-append_one [] a zero = ground arith
  get_elem?-append_one [] a (suc j) = ground arith
  get_elem?-append_one (x ∷ xs) a zero = ground arith
  get_elem?-append_one (x ∷ xs) a (suc j) = ground (arith, get_elem?-append_one xs a j)

  -- An index with an element is below the length, and the other way round.
  pub lt_of_get_elem? : (xs : List A) (j : ℕ) {a : A} → get_elem? xs j ≡ some a → j < length xs
  lt_of_get_elem? [] j h = cc
  lt_of_get_elem? (x ∷ xs) zero h = omega arith
  lt_of_get_elem? (x ∷ xs) (suc j) h = omega (arith, lt_of_get_elem? xs j h)

  pub get_elem?_of_lt : (xs : List A) (j : ℕ) → j < length xs → (a : A) × (get_elem? xs j ≡ some a)
  get_elem?_of_lt [] j h = absurd (omega arith)
  get_elem?_of_lt (x ∷ xs) zero h = (x, refl)
  get_elem?_of_lt (x ∷ xs) (suc j) h = get_elem?_of_lt xs j (omega arith)

  -- To remove an element, swap it with the last one and drop that.
  unfoldable pub swap_pop : ℕ → List A → List A
  swap_pop i xs = if i == length xs - 1 then pop_back xs else pop_back (swap i (length xs - 1) xs)

  pub get_elem?-swap_pop :
      (i j : ℕ) (xs : List A)
      → i < length xs
      → get_elem? (swap_pop i xs) j ≡ (
          if ltb j (length xs - 1)
          then (if j == i then get_elem? xs (length xs - 1) else get_elem? xs j)
          else none)
  unfolding swap_pop swap pop_back
  get_elem?-swap_pop i j xs h =
      let last = length xs - 1 in
      let (a, at_i) = get_elem?_of_lt xs i h in
      let (b, at_last) = get_elem?_of_lt xs last (omega arith) in
      rw (at_i, at_last)
        (ground (
          arith,
          get_elem?-take last j xs,
          get_elem?-take (length (set_at i b (set_at last a xs)) - 1) j
              (set_at i b (set_at last a xs)),
          length-set_at i b (set_at last a xs),
          length-set_at last a xs,
          get_elem?-set_at i j b (set_at last a xs),
          get_elem?-set_at last j a xs,
          at_last,
        ))
