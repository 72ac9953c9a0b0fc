-- ===== src/Fft/Layout.antt =====
-- The layouts of include/fft/fft.h: a batch is contiguous rows, one for each transform, of reals or of
-- complex values. A complex value is two scalars, the real part first. Memory is in scalars.
use dsp_dispatch.Base.{ℕ, ◌+◌, ◌*◌, ◌<◌, ◌≡◌, Memory}
use dsp_dispatch.Fft.Types.{FftType, FftPrecision, real_complex_bins}

pub data Side : Type 0 where
  reals complexes : Side

abbrev pub in_side : FftType → Side
in_side FftType.real_to_complex = reals
in_side _ = complexes

abbrev pub out_side : FftType → Side
out_side FftType.complex_to_real = reals
out_side _ = complexes

-- The scalars of a row of a transform of `n` values.
abbrev pub in_width : FftType → ℕ → ℕ
in_width FftType.complex n = 2 * n
in_width FftType.real_to_complex n = n
in_width FftType.complex_to_real n = 2 * real_complex_bins n

abbrev pub out_width : FftType → ℕ → ℕ
out_width FftType.complex n = 2 * n
out_width FftType.real_to_complex n = 2 * real_complex_bins n
out_width FftType.complex_to_real n = n

-- `sizeof(Real)`
abbrev pub real_size : FftPrecision → ℕ
real_size FftPrecision.f32 = 4
real_size FftPrecision.f64 = 8

-- What a call owes the caller, with `size` addresses to a scalar: scalar `j` of row `b` of the output
-- is scalar `j` of the transform `f` of row `b` of the input.
abbrev pub Serves :
    {A : Type 0} (size batch wi wo : ℕ)
    → ((ℕ → A) → ℕ → A)
    → (input output : ℕ) → Memory A
    → Memory A
    → Type 0
Serves size batch wi wo f input output mem mem' =
    (b j : ℕ)
    → b < batch
    → j < wo
    → mem' (output + (b * wo + j) * size) ≡ f (λ i. mem (input + (b * wi + i) * size)) j

-- The scalars of an element.
abbrev pub unit : Side → ℕ
unit reals = 1
unit complexes = 2
