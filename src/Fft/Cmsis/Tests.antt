-- ===== src/Fft/Cmsis/Tests.antt =====
-- Runs of the CMSIS FFT backend over a small stand-in for CMSIS-DSP, and the theorems at concrete
-- inputs. The stand-in's "transforms" put the values of a row in the reverse order.
use dsp_dispatch.Base.{
  ℕ, ◌+◌, ◌-◌, ◌*◌, ltb, if◌then◌else◌, ◌≡◌, refl, arith, Bool, true, false, inr, assign,
}
use dsp_dispatch.Fft.Types.{Status, FftType, FftPrecision, FftDirection, FftPlanConfig}
use dsp_dispatch.Fft.Plan.{create}
use dsp_dispatch.Fft.Cmsis.{ArmMath, CmsisFftState, cmsis_execute, make_backend_plan}
use dsp_dispatch.Fft.Cmsis.Local.{IsLocal}
use dsp_dispatch.Fft.Cmsis.Spectrum.{bin_re, bin_im, packed_of}
use dsp_dispatch.Fft.Cmsis.Complex.{complex-transform}
use dsp_dispatch.Fft.Cmsis.Real.{IsTransform, IsReal, real_to_complex-bins, complex_to_real-reals}
use dsp_dispatch.Fft.Cmsis.RoundTrip.{complex_to_real-ignores, real_round_trip}
use dsp_dispatch.Fft.Cmsis.Create.{cmsis-create_status}

abbrev reversed : ℕ → (ℕ → ℕ) → ℕ → ℕ
reversed n u j = if ltb j n then u (n - 1 - j) else u j

abbrev toy : ArmMath
toy = record {
  Float = ℕ;
  zero = 0;
  Cfft = ℕ;
  Rfft = ℕ;
  cfft_blank = 0;
  rfft_blank = 0;
  cfft_init = λ n. (ltb n 5, n);
  rfft_init = λ n. (ltb n 5, n);
  cfft = λ n inverse u. reversed (2 * n) u;
  rfft = λ n inverse u old. (u, reversed n u);
}

-- two rows of four values, or of three bins
abbrev state : FftType → CmsisFftState toy
state t = record {
  type = t;
  n = 4;
  batch = 2;
  bins = 3;
  inverse = false;
  cfft = 4;
  rfft = 4;
  a = assign 8 0;
  b = assign 4 0;
}

abbrev numbered : ℕ → ℕ
numbered j = 100 + j

reversed-IsLocal : IsLocal 8 (reversed 8)
reversed-IsLocal u v same j hj = ground (arith, same (7 - j))

reversed-IsTransform : (inverse : Bool) → IsTransform toy 4 inverse 4 (reversed 4)
reversed-IsTransform inverse u v old same j hj = ground (arith, same (3 - j))

state-IsReal : (t : FftType) → IsReal (state t)
state-IsReal t = record { pos = omega arith; even = refl; bins = refl; fits = omega arith }

complex-transform_example :
    (cmsis_execute (state FftType.complex) 0 0 numbered).2 (0 + 1 * (2 * 4) + 3)
    ≡ reversed 8 (λ i. numbered (0 + 1 * (2 * 4) + i)) 3
complex-transform_example =
    complex-transform (state FftType.complex) 0 0 (omega arith) (omega arith) reversed-IsLocal
      numbered refl (inr refl) 1 3 (omega arith) (omega arith)

real_to_complex-bins_example :
    ((cmsis_execute (state FftType.real_to_complex) 0 8 numbered).2 (8 + 1 * (2 * 3) + 2 * 2)
      ≡ bin_re 2 (reversed 4 (λ i. numbered (0 + 1 * 4 + i))) 2)
    × ((cmsis_execute (state FftType.real_to_complex) 0 8 numbered).2
          (8 + 1 * (2 * 3) + (2 * 2 + 1))
        ≡ bin_im 0 2 (reversed 4 (λ i. numbered (0 + 1 * 4 + i))) 2)
real_to_complex-bins_example =
    real_to_complex-bins (state FftType.real_to_complex) 0 8 (state-IsReal FftType.real_to_complex)
      (reversed 4) (reversed-IsTransform false) numbered refl (omega arith) 1 2 (omega arith)
      (omega arith)

complex_to_real-reals_example :
    (cmsis_execute (state FftType.complex_to_real) 0 12 numbered).2 (12 + 1 * 4 + 2)
    ≡ reversed 4 (packed_of 2 (λ i. numbered (0 + 1 * (2 * 3) + i))) 2
complex_to_real-reals_example =
    complex_to_real-reals (state FftType.complex_to_real) 0 12
      (state-IsReal FftType.complex_to_real) (reversed 4) (reversed-IsTransform true) numbered refl
      (omega arith) 1 2 (omega arith) (omega arith)

-- the same bins, but for the imaginary parts of the DC bins
abbrev renumbered : ℕ → ℕ
renumbered j =
    if ltb 0 j
    then (if ltb 1 j then (if ltb 6 j then (if ltb 7 j then 100 + j else 5) else 100 + j) else 9)
    else 100

real_round_trip_example :
    (cmsis_execute
        (record (state FftType.real_to_complex) {
          type = FftType.complex_to_real;
          rfft = 4;
          a = assign 4 0;
          b = assign 4 0;
        })
        8
        20
        (cmsis_execute (state FftType.real_to_complex) 0 8 numbered).2).2
      (20 + 1 * 4 + 2)
    ≡ numbered (0 + 1 * 4 + 2)
real_round_trip_example =
    real_round_trip (state FftType.real_to_complex) 4 (assign 4 0) (assign 4 0)
      (state-IsReal FftType.real_to_complex) refl (reversed 4) (reversed 4)
      (reversed-IsTransform false) (reversed-IsTransform true) (λ u j hj. ground arith) 0 8 20
      numbered (omega arith) (omega arith) 1 2 (omega arith) (omega arith)

abbrev long_plan : FftPlanConfig
long_plan = record {
  type = FftType.real_to_complex;
  precision = FftPrecision.f32;
  length = 65536 + 4;
  batch = 2;
  direction = FftDirection.forward;
}

cmsis-create_status_example :
    (create (make_backend_plan toy long_plan)).status ≡ Status.unsupported_length
cmsis-create_status_example = cmsis-create_status toy long_plan

complex_to_real-ignores_example :
    (cmsis_execute (state FftType.complex_to_real) 0 12 numbered).2 (12 + 1 * 4 + 2)
    ≡ (cmsis_execute (state FftType.complex_to_real) 0 12 renumbered).2 (12 + 1 * 4 + 2)
complex_to_real-ignores_example =
    complex_to_real-ignores (state FftType.complex_to_real) 0 12
      (state-IsReal FftType.complex_to_real) (reversed 4) (reversed-IsTransform true) numbered
      renumbered refl (omega arith) (λ b i hb hi ne ne'. ground arith) 1 2 (omega arith)
      (omega arith)
