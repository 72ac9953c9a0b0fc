-- ===== src/Fir/Cmsis/Examples.antt =====
-- A CMSIS-DSP library for the tests, whose instances weigh every sample and the two before it with the
-- coefficients.
use dsp_dispatch.Base.{ℕ, ◌+◌, ◌-◌, ◌*◌, ◌<◌, ◌≡◌, refl, ◌∙◌, arith, if◌then◌else◌, ltb, leb}
use dsp_dispatch.Base.Cpp.{CppType}
use dsp_dispatch.Fir.Response.{past}
use dsp_dispatch.Fir.Examples.{counting, taps}
use dsp_dispatch.Fir.Cmsis.{ArmFir, ArmFirs}
use dsp_dispatch.Fir.Cmsis.Stream.{IsDocumented}

-- the two samples before, and a block of two
abbrev pub window : (state source : ℕ → ℕ) → ℕ → ℕ
window state source i = if ltb i 2 then state i else source (i - 2)

-- three taps and blocks of two
abbrev pub weighing : ArmFir ℕ
weighing = record {
  Instance = ℕ;
  blank = 0;
  size = 16;
  fir_init = λ taps coeffs state block. (taps, λ j. 0);
  fir = λ i coeffs state source block. (
    (λ k.
        coeffs 2 * window state source (k + 2)
        + coeffs 1 * window state source (k + 1)
        + coeffs 0 * window state source k),
    (λ j. window state source (j + 2)),
  );
}

abbrev pub both : ArmFirs counting
both = record { f32 = weighing; f64 = weighing }

abbrev pub weighed : (ℕ → ℕ) → ℕ → ℕ
weighed x n =
    1 * x n + 10 * (if leb 1 n then x (n - 1) else 0) + 19 * (if leb 2 n then x (n - 2) else 0)

-- The window holds what comes before time `n`, and the block.
pub window-past :
    (x : ℕ → ℕ) (n : ℕ) (state source : ℕ → ℕ)
    → ((j : ℕ) → j < 2 → state j ≡ past counting CppType.float x n 2 j)
    → ((m : ℕ) → m < 2 → source m ≡ x (n + m))
    → (i : ℕ) → i < 4
    → window state source i ≡ (if leb 2 (n + i) then x (n + i - 2) else 0)
window-past x n state source held read i hi = ground (arith, held i, read (i - 2))

pub weighing-IsDocumented :
    IsDocumented counting CppType.float weighing 3 2 (taps CppType.float) weighed
weighing-IsDocumented = record {
  cleared = λ coeffs state j h. refl;
  run = λ x n i coeffs state source made reversed held read. (
    (λ k hk.
        rw
          (
            reversed 0 (omega arith),
            reversed 1 (omega arith),
            reversed 2 (omega arith),
            window-past x n state source held read k (omega arith),
            window-past x n state source held read (k + 1) (omega arith),
            window-past x n state source held read (k + 2) (omega arith),
          )
          (ground arith)),
    (λ j hj. window-past x n state source held read (j + 2) (omega arith) ∙ ground arith),
  );
}
