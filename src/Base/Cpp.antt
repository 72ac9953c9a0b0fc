-- ===== src/Base/Cpp.antt =====
-- The number types at which the templates are instantiated, and the arithmetic that the code asks
-- of them. Floating point is the compiler's: its values and operations are parameters with no laws,
-- so an equation of results is an equation bit for bit.
use Prim.Native.Nat.{ℕ}

pub data CppType : Type 0 where
  float double complex_float complex_double : CppType

-- `sizeof`
abbrev pub size_of : CppType → ℕ
size_of CppType.float = 4
size_of CppType.double = 8
size_of CppType.complex_float = 8
size_of CppType.complex_double = 16

-- `zero` is `Sample{}`, `add` is `acc += y`, and `mul` the product of a sample and a tap.
pub record Numbers : Type 1 where
  pub Value : CppType → Type 0
  pub zero : (s : CppType) → Value s
  pub add : (s : CppType) → Value s → Value s → Value s
  pub mul : (s t : CppType) → Value s → Value t → Value s
