-- ===== src/Prelude/Lists.antt =====
-- Lists measured and indexed by native numbers, under the library's names.
use Prim.Native.Nat.{ℕ, zero, suc, ◌+◌, ◌-◌, ◌≤◌, min}
use mathlib.Core.Path.{◌≡◌, refl, sym, ap, ◌∙◌}
use mathlib.Core.List.{List, [], ◌∷◌, ◌++◌}
use mathlib.Core.Option.{Option, none, some}
use native.Mathlib.Omega.{arith}

module _ {ℓ} {A : Type ℓ} where
  abbrev pub length : List A → ℕ
  length [] = 0
  length (x ∷ xs) = suc (length xs)

  abbrev pub get_elem? : List A → ℕ → Option A
  get_elem? [] i = none
  get_elem? (x ∷ xs) zero = some x
  get_elem? (x ∷ xs) (suc i) = get_elem? xs i

  abbrev pub take : ℕ → List A → List A
  take zero xs = []
  take (suc n) [] = []
  take (suc n) (x ∷ xs) = x ∷ take n xs

  abbrev pub drop : ℕ → List A → List A
  drop zero xs = xs
  drop (suc n) [] = []
  drop (suc n) (x ∷ xs) = drop n xs

  abbrev pub replicate : ℕ → A → List A
  replicate zero a = []
  replicate (suc n) a = a ∷ replicate n a

  pub length-append : (xs ys : List A) → length (xs ++ ys) ≡ length xs + length ys
  length-append [] ys = omega arith
  length-append (x ∷ xs) ys = omega (arith, length-append xs ys)

  pub length-take : (n : ℕ) (xs : List A) → length (take n xs) ≡ min n (length xs)
  length-take zero xs = omega arith
  length-take (suc n) [] = omega arith
  length-take (suc n) (x ∷ xs) = omega (arith, length-take n xs)

  pub length-drop : (n : ℕ) (xs : List A) → length (drop n xs) ≡ length xs - n
  length-drop zero xs = omega arith
  length-drop (suc n) [] = omega arith
  length-drop (suc n) (x ∷ xs) = omega (arith, length-drop n xs)

  pub length-replicate : (n : ℕ) (a : A) → length (replicate n a) ≡ n
  length-replicate zero a = refl
  length-replicate (suc n) a = ap suc (length-replicate n a)

  pub take-append-drop : (n : ℕ) (xs : List A) → take n xs ++ drop n xs ≡ xs
  take-append-drop zero xs = refl
  take-append-drop (suc n) [] = refl
  take-append-drop (suc n) (x ∷ xs) = ap (λ l. x ∷ l) (take-append-drop n xs)

  -- The first part of a concatenation, and the rest, by the length of the first part.
  pub take-append_left : (n : ℕ) (xs ys : List A) → n ≤ length xs → take n (xs ++ ys) ≡ take n xs
  take-append_left zero xs ys h = refl
  take-append_left (suc n) [] ys h = absurd (omega arith)
  take-append_left (suc n) (x ∷ xs) ys h = ap (λ l. x ∷ l) (take-append_left n xs ys (omega arith))

  pub drop-append_left :
      (n : ℕ) (xs ys : List A) → n ≤ length xs → drop n (xs ++ ys) ≡ drop n xs ++ ys
  drop-append_left zero xs ys h = refl
  drop-append_left (suc n) [] ys h = absurd (omega arith)
  drop-append_left (suc n) (x ∷ xs) ys h = drop-append_left n xs ys (omega arith)

  pub take-append_right :
      (n : ℕ) (xs ys : List A) → length xs ≤ n → take n (xs ++ ys) ≡ xs ++ take (n - length xs) ys
  take-append_right n [] ys h = ap (λ k. take k ys) (omega arith)
  take-append_right zero (x ∷ xs) ys h = absurd (omega arith)
  take-append_right (suc n) (x ∷ xs) ys h =
      ap (λ l. x ∷ l)
        (take-append_right n xs ys (omega arith) ∙ ap (λ k. xs ++ take k ys) (omega arith))

  pub drop-append_right :
      (n : ℕ) (xs ys : List A) → length xs ≤ n → drop n (xs ++ ys) ≡ drop (n - length xs) ys
  drop-append_right n [] ys h = ap (λ k. drop k ys) (omega arith)
  drop-append_right zero (x ∷ xs) ys h = absurd (omega arith)
  drop-append_right (suc n) (x ∷ xs) ys h =
      drop-append_right n xs ys (omega arith) ∙ ap (λ k. drop k ys) (omega arith)

  pub take_all : (n : ℕ) (xs : List A) → length xs ≤ n → take n xs ≡ xs
  take_all zero [] h = refl
  take_all zero (x ∷ xs) h = absurd (omega arith)
  take_all (suc n) [] h = refl
  take_all (suc n) (x ∷ xs) h = ap (λ l. x ∷ l) (take_all n xs (omega arith))

  pub drop_all : (n : ℕ) (xs : List A) → length xs ≤ n → drop n xs ≡ []
  drop_all zero [] h = refl
  drop_all zero (x ∷ xs) h = absurd (omega arith)
  drop_all (suc n) [] h = refl
  drop_all (suc n) (x ∷ xs) h = drop_all n xs (omega arith)

  pub drop-drop : (m n : ℕ) (xs : List A) → drop m (drop n xs) ≡ drop (n + m) xs
  drop-drop m zero xs = ap (λ k. drop k xs) (omega arith)
  drop-drop m (suc n) [] = drop_all m [] (omega arith) ∙ sym (drop_all (suc n + m) [] (omega arith))
  drop-drop m (suc n) (x ∷ xs) =
      let shift : suc (n + m) ≡ suc n + m = omega arith in
      drop-drop m n xs ∙ ap (λ k. drop k (x ∷ xs)) shift

  -- A prefix of the rest is the rest of a prefix.
  pub drop-take : (m n : ℕ) (xs : List A) → drop m (take (m + n) xs) ≡ take n (drop m xs)
  drop-take zero n xs = ap (λ k. take k xs) (omega arith)
  drop-take (suc m) n [] =
      ap (drop (suc m)) (take_all (suc m + n) [] (omega arith)) ∙ sym (take_all n [] (omega arith))
  drop-take (suc m) n (x ∷ xs) =
      let shift : suc m + n ≡ suc (m + n) = omega arith in
      ap (λ k. drop (suc m) (take k (x ∷ xs))) shift ∙ drop-take m n xs

  pub take-take_of_le : (m n : ℕ) (xs : List A) → m ≤ n → take m (take n xs) ≡ take m xs
  take-take_of_le zero n xs h = refl
  take-take_of_le (suc m) zero xs h = absurd (omega arith)
  take-take_of_le (suc m) (suc n) [] h = refl
  take-take_of_le (suc m) (suc n) (x ∷ xs) h =
      ap (λ l. x ∷ l) (take-take_of_le m n xs (omega arith))
