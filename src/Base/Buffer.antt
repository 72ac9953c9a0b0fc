-- ===== src/Base/Buffer.antt =====
-- Typed memory and `std::vector`. A memory gives the cell at each address; a pointer is an
-- address, and `nullptr` is `none` where a pointer may be null.
use Prim.Native.Nat.{ℕ, ◌+◌, ◌-◌, ◌≤◌, ◌<◌}
use mathlib.Core.Path.{◌≡◌}
use mathlib.Core.Logic.{◌⊎◌, ◌≢◌}
use mathlib.Core.Bool.{◌&&◌}
use mathlib.Core.Option.{Option}
use native.Mathlib.Omega.{arith}
use dsp_dispatch.Base.Tests.{ltb, leb, ◌==◌, if◌then◌else◌}

abbrev pub Memory {ℓ} : Type ℓ → Type ℓ
Memory A = ℕ → A

abbrev pub Pointer : Type 0
Pointer = Option ℕ

-- `std::vector`: its size and its cells; what it holds from `size` on is never read.
pub record Vector {ℓ} (A : Type ℓ) : Type ℓ where
  pub size : ℕ
  pub at : ℕ → A

-- Two ranges of cells have no cell in common.
abbrev pub Disjoint : (a m b n : ℕ) → Type 0
Disjoint a m b n = (a + m ≤ b) ⊎ (b + n ≤ a)

abbrev pub Outside : (address first size : ℕ) → Type 0
Outside j a n = (j < a) ⊎ (a + n ≤ j)

module _ {ℓ} {A : Type ℓ} where
  -- `*p = v`
  abbrev pub store : Memory A → ℕ → A → Memory A
  store mem p v j = if j == p then v else mem j

  -- `std::copy(src, src + n, dst)` between ranges that do not overlap
  abbrev pub copy : (n : ℕ) → (ℕ → A) → ℕ → Memory A → Memory A
  copy n src dst mem j = if leb dst j && ltb j (dst + n) then src (j - dst) else mem j

  -- `v.assign(n, x)`
  abbrev pub assign : ℕ → A → Vector A
  assign n x = record { size = n; at = λ _. x }

  -- `v.insert(v.end(), src, src + n)`
  abbrev pub insert_end : Vector A → ℕ → (ℕ → A) → Vector A
  insert_end v n src = record { size = v.size + n; at = copy n src v.size v.at }

  pub store_self : (mem : Memory A) (p : ℕ) (v : A) → store mem p v p ≡ v
  store_self mem p v = ground arith

  pub store_ne : (mem : Memory A) (p j : ℕ) (v : A) → j ≢ p → store mem p v j ≡ mem j
  store_ne mem p j v h = ground arith

  pub copy_inside :
      (n : ℕ) (src : ℕ → A) (dst : ℕ) (mem : Memory A) (i : ℕ)
      → i < n
      → copy n src dst mem (dst + i) ≡ src i
  copy_inside n src dst mem i h = ground arith

  pub copy-Outside :
      (n : ℕ) (src : ℕ → A) (dst : ℕ) (mem : Memory A) (j : ℕ)
      → Outside j dst n
      → copy n src dst mem j ≡ mem j
  copy-Outside n src dst mem j h = ground arith
