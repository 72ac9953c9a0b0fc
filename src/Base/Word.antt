-- ===== src/Base/Word.antt =====
-- `std::size_t` arithmetic, 64 bits wide, with its wrap-around; and rows of a flat array.
use Prim.Native.Nat.{ℕ, ◌+◌, ◌-◌, ◌*◌, ◌%◌, ◌^◌, ◌≤◌, ◌<◌}
use mathlib.Core.Path.{◌≡◌, ◌∙◌}
use native.Mathlib.Nat.{
  mod-eq_of_lt, mul-le-mul_left, mul-le-mul_right, suc-mul, mul_comm, mul_assoc,
}
use native.Mathlib.Omega.{arith}

abbrev pub size_mod : ℕ
size_mod = 2 ^ 64

unfoldable pub add_size : ℕ → ℕ → ℕ
add_size a b = (a + b) % size_mod

unfoldable pub sub_size : ℕ → ℕ → ℕ
sub_size a b = (a + size_mod - b) % size_mod

unfoldable pub mul_size : ℕ → ℕ → ℕ
mul_size a b = a * b % size_mod

pub add_size_lem : (a b : ℕ) → a + b < size_mod → add_size a b ≡ a + b
unfolding add_size
add_size_lem a b h = omega arith

pub sub_size_lem : (a b : ℕ) → b ≤ a → a < size_mod → sub_size a b ≡ a - b
unfolding sub_size
sub_size_lem a b h l = omega arith

pub mul_size_lem : (a b : ℕ) → a * b < size_mod → mul_size a b ≡ a * b
unfolding mul_size
mul_size_lem a b h = mod-eq_of_lt h

-- Row `b` of a table of `n` rows of width `w` ends within the table.
pub row-le : {b n : ℕ} (w : ℕ) → b < n → b * w + w ≤ n * w
row-le {b} {n} w h = omega (arith, suc-mul b w, mul-le-mul_right w h)

-- The start of a row of a table that the address space holds does not wrap.
pub mul_size_row : (b n w : ℕ) → b < n → n * w < size_mod → mul_size b w ≡ b * w
mul_size_row b n w h l = mul_size_lem b w (omega (arith, row-le w h))

pub mul_size_lt : (a b : ℕ) → mul_size a b < size_mod
unfolding mul_size
mul_size_lt a b = omega arith

-- `b * 2 * n`, the offset of a row of `n` pairs.
pub mul_size_pairs :
    (b batch n : ℕ)
    → 0 < n
    → b < batch
    → batch * (2 * n) < size_mod
    → mul_size (mul_size b 2) n ≡ b * (2 * n)
mul_size_pairs b batch n pos hb fits =
    let row = row-le {b = b} {n = batch} (2 * n) hb in
    let le = mul-le-mul_left {m = 1} {n = n} b pos in
    rw (mul_size_lem b 2 (omega (arith, row, mul_comm b n)))
      (mul_size_lem (b * 2) n (omega arith) ∙ mul_assoc b 2 n)
