-- ===== src/Fir/Examples.antt =====
-- Concrete numbers, configurations and signals for the tests of the FIR modules: the number types
-- are all ℕ, which lets a run be followed by hand. And filter objects that add to every sample the
-- one before it.
use dsp_dispatch.Base.{◌≡◌, ◌-◌, ◌==◌, leb, if◌then◌else◌, arith}
use dsp_dispatch.Fir.Bank.{Filter}
use dsp_dispatch.Fir.Bank.Stream.{IsFiltering}
use dsp_dispatch.Base.{ℕ, ◌+◌, ◌*◌, ◌/◌, ◌%◌, List, [], ◌∷◌, some, Memory}
use dsp_dispatch.Base.Cpp.{Numbers}
use dsp_dispatch.Fir.Types.{FirPlanConfig, FirType, FirPrecision, TapMemory}

abbrev pub counting : Numbers
counting = record { Value = λ _. ℕ; zero = λ _. 0; add = λ _ a b. a + b; mul = λ _ _ a b. a * b }

abbrev pub taps : TapMemory counting
taps _ k = 1 + 9 * k

-- two channels, blocks of two samples, the three taps 1, 10, 19
abbrev pub config : FirPlanConfig counting
config = record {
  type = FirType.real;
  precision = FirPrecision.f32;
  taps = some taps;
  tap_count = 3;
  block_size = 2;
  batch = 2;
}

abbrev pub signal : ℕ → ℕ → ℕ
signal b n = 10 * b + n + 1

abbrev pub block_at : ℕ → ℕ → ℕ
block_at n j = signal (j / 2) (n + j % 2)

abbrev pub two_blocks : List (ℕ → ℕ)
two_blocks = block_at 0 ∷ block_at 2 ∷ []

abbrev pub empty_memory : Memory ℕ
empty_memory _ = 0

-- another pair of signals, and a block of them
abbrev pub fresh_signal : ℕ → ℕ → ℕ
fresh_signal b n = n + b

abbrev pub fresh_block : ℕ → ℕ
fresh_block j = fresh_signal (j / 2) (j % 2)

abbrev pub two_sums : (ℕ → ℕ) → ℕ → ℕ
two_sums x n = x n + (if leb 1 n then x (n - 1) else 0)

-- an object is the last sample that it has been given
abbrev pub adding : Filter ℕ ℕ
adding = record {
  Object = ℕ;
  create = λ taps count. 0;
  execute_block = λ q u block. (λ i. u i + (if i == 0 then q else u (i - 1)), u (block - 1));
  reset = λ q. 0;
}

pub adding-IsFiltering : (taps_of : ℕ → ℕ) → IsFiltering adding taps_of 3 2 two_sums
adding-IsFiltering taps_of = record {
  Given = λ x n q. q ≡ (if leb 1 n then x (n - 1) else 0);
  created = λ x. omega arith;
  run =
      λ x n q u given read. (λ i hi. ground (arith, read i, read 0, given), ground (arith, read 1));
  fresh = λ x x' n q given. omega arith;
}
