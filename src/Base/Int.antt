-- ===== src/Base/Int.antt =====
-- `int` results of library calls. `negsuc n` is -(n + 1).
use Prim.Native.Nat.{ℕ, zero, suc, ◌%◌, ◌^◌, ◌<◌}
use mathlib.Core.Path.{◌≡◌}
use native.Mathlib.Nat.{mod-eq_of_lt}
use native.Mathlib.Omega.{arith}
use mathlib.Core.Bool.{Bool, true, false}

pub data ℤ : Type 0 where
  pos : ℕ → ℤ
  negsuc : ℕ → ℤ

-- `v <= 0`
abbrev pub is_nonpositive : ℤ → Bool
is_nonpositive (pos zero) = true
is_nonpositive (pos (suc n)) = false
is_nonpositive (negsuc n) = true

-- `v < 0`
abbrev pub is_negative : ℤ → Bool
is_negative (pos n) = false
is_negative (negsuc n) = true

-- `static_cast<std::size_t>(v)` of a number that is not negative
abbrev pub to_size : ℤ → ℕ
to_size (pos n) = n
to_size (negsuc n) = 0

-- `static_cast<int>` of a `size_t`, kept as its 32 bits.
abbrev pub to_int : ℕ → ℕ
to_int n = n % 2 ^ 32

pub to_int_lem : (n : ℕ) → n < 2 ^ 31 → to_int n ≡ n
to_int_lem n h = mod-eq_of_lt (omega arith)

-- `static_cast<unsigned int>` and `static_cast<uint32_t>` of a `size_t`.
abbrev pub to_uint : ℕ → ℕ
to_uint n = n % 2 ^ 32

pub to_uint_lem : (n : ℕ) → n < 2 ^ 32 → to_uint n ≡ n
to_uint_lem n h = mod-eq_of_lt h
