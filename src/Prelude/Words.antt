-- ===== src/Prelude/Words.antt =====
-- `size_t`, `uint32_t` and `int32_t` values as native numbers, with the wrap written out.
use Prim.Native.Nat.{ℕ, ◌+◌, ◌-◌, ◌%◌, ◌^◌, ◌≤◌, ◌<◌}
use mathlib.Core.Path.{◌≡◌}
use native.Mathlib.Omega.{arith}
use cpp_reactor_framework.Prelude.Tests.{ltb, if◌then◌else◌}

abbrev pub size_mod : ℕ
size_mod = 2 ^ 64

abbrev pub uint32_mod : ℕ
uint32_mod = 2 ^ 32

-- `size_t` addition and subtraction.
abbrev pub add_size : ℕ → ℕ → ℕ
add_size a b = (a + b) % size_mod

abbrev pub sub_size : ℕ → ℕ → ℕ
sub_size a b = (a + size_mod - b) % size_mod

-- `static_cast<uint32_t>` of a `size_t`.
abbrev pub to_uint32 : ℕ → ℕ
to_uint32 a = a % uint32_mod

-- `negsuc n` is -(n + 1).
pub data ℤ : Type 0 where
  pos : ℕ → ℤ
  negsuc : ℕ → ℤ

-- `static_cast<int32_t>` of a `uint32_t`.
abbrev pub to_int32 : ℕ → ℤ
to_int32 w = if ltb w (2 ^ 31) then pos w else negsuc (uint32_mod - w - 1)

pub add_size-eq_of_lt : (a b : ℕ) → a + b < size_mod → add_size a b ≡ a + b
add_size-eq_of_lt a b h = omega arith

pub sub_size-eq_of_le : (a b : ℕ) → b ≤ a → a < size_mod → sub_size a b ≡ a - b
sub_size-eq_of_le a b h k = omega arith
