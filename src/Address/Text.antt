-- ===== src/Address/Text.antt =====
-- src/address.cpp: the text of an address.
use cpp_reactor_framework.Prelude.{
  ℕ, zero, suc, ◌+◌, ◌*◌, ◌-◌, ◌/◌, ◌%◌, ◌^◌, ◌<◌, ◌≡◌, refl, ap, ◌∙◌, inl, inr, false, List, [],
  ◌∷◌, ◌++◌, arith, ltb, ◌==◌, Bool-cases, if◌then◌else◌, if_false,
}
use cpp_reactor_framework.Address.{decimal}

-- The number that decimal digits stand for, behind the digits before.
abbrev pub number_from : ℕ → List ℕ → ℕ
number_from n [] = n
number_from n (c ∷ cs) = number_from (n * 10 + (c - b'0')) cs

number_from-append :
    (n : ℕ) (cs ds : List ℕ) → number_from n (cs ++ ds) ≡ number_from (number_from n cs) ds
number_from-append n [] ds = refl
number_from-append n (c ∷ cs) ds = number_from-append (n * 10 + (c - b'0')) cs ds

-- The digits of a number stand for it, if they are enough.
pub decimal_lem : (digits n : ℕ) → n < 10 ^ digits → number_from 0 (decimal digits n) ≡ n
unfolding decimal
decimal_lem zero n h = omega arith
decimal_lem (suc digits) n h = elim (Bool-cases (ltb n 10)) [
  | inl one ↦ rw one (omega arith)
  | inr more ↦ rw more (
      number_from-append 0 (decimal digits (n / 10)) ((b'0' + n % 10) ∷ [])
      ∙ omega (arith, decimal_lem digits (n / 10) (omega arith)))
]

-- What stands behind the first colon.
abbrev pub after_colon : List ℕ → List ℕ
after_colon [] = []
after_colon (c ∷ cs) = let rest = after_colon cs in if c == b':' then cs else rest

-- What stands before it.
abbrev pub before_colon : List ℕ → List ℕ
before_colon [] = []
before_colon (c ∷ cs) = let rest = before_colon cs in if c == b':' then [] else c ∷ rest

abbrev pub NoColon : List ℕ → Type 0
NoColon [] = Unit {0}
NoColon (c ∷ cs) = ((c == b':') ≡ false) × NoColon cs

pub before_colon_lem :
    (text rest : List ℕ) → NoColon text → before_colon (text ++ (b':' ∷ rest)) ≡ text
before_colon_lem [] rest clear = refl
before_colon_lem (c ∷ cs) rest clear =
    if_false _ _ (c == b':') clear.0 ∙ ap (λ l. c ∷ l) (before_colon_lem cs rest clear.1)

pub after_colon_lem :
    (text rest : List ℕ) → NoColon text → after_colon (text ++ (b':' ∷ rest)) ≡ rest
after_colon_lem [] rest clear = refl
after_colon_lem (c ∷ cs) rest clear =
    if_false _ _ (c == b':') clear.0 ∙ after_colon_lem cs rest clear.1
