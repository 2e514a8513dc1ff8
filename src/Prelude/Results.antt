-- ===== src/Prelude/Results.antt =====
-- Calls that may end the program: `assert`, an exception of a container, an access out of range, an
-- iterator to an element that was erased. A
-- loop on fuel has a fault of its own for fuel that ran out.
use mathlib.Core.Bool.{Bool, true, false}
use mathlib.Core.Path.{◌≡◌}

pub data Fault : Type 0 where
  assertion_failed length_error out_of_range out_of_fuel invalid_iterator : Fault

-- How a call ends: with a fault, or with a value.
pub data Result {ℓ} (S : Type ℓ) : Type ℓ where
  fault : Fault → Result S
  ok : S → Result S

-- One call after the other, and no other after a fault.
infixl 5 ◌>>◌ ◌>>=◌
abbrev pub ◌>>=◌ {ℓ κ} :
    {S : Type ℓ} {T : Type κ} (call : Result S) (next : S → Result T) → Result T
fault why >>= next = fault why
ok s >>= next = next s

abbrev pub ◌>>◌ {κ} : {T : Type κ} (check : Result (Unit {0})) (next : Result T) → Result T
fault why >> next = fault why
ok done >> next = next

-- A test that ends the call with `why` where it fails.
abbrev or_fault : Fault → Bool → Result (Unit {0})
or_fault why false = fault why
or_fault why true = ok tt

-- `assert(b)`.
abbrev pub assert : Bool → Result (Unit {0})
assert b = or_fault assertion_failed b

-- A memory access that is defined only if `b` holds.
abbrev pub in_range : Bool → Result (Unit {0})
in_range b = or_fault out_of_range b

-- What the call produces, if it ends with no fault, satisfies `Q`.
abbrev pub Ends {ℓ} : {S : Type ℓ} (Q : S → Type 0) → Result S → Type 0
Ends Q (fault why) = Unit
Ends Q (ok s) = Q s

pub Ends-bind {ℓ κ} :
    {S : Type ℓ} {T : Type κ} {Q : S → Type 0} (R : T → Type 0) (call : Result S)
    (next : S → Result T)
    → Ends Q call
    → ((s : S) → Q s → Ends R (next s))
    → Ends R (call >>= next)
Ends-bind R (fault why) next h k = tt
Ends-bind R (ok s) next h k = k s h

-- A call ends in one way.
pub same_end {ℓ} : {S : Type ℓ} {call : Result S} {s s' : S} → call ≡ ok s → call ≡ ok s' → s ≡ s'
same_end p q = cc
