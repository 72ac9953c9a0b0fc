-- ===== src/Fft/Armpl/Normalize.antt =====
-- `normalize_inverse` multiplies every scalar of the output once, and no other.
use dsp_dispatch.Base.{ℕ, ◌+◌, ◌*◌, ◌<◌, ◌≡◌, ◌≢◌, size_mod, Outside}
use dsp_dispatch.Fft.Types.{FftType}
use dsp_dispatch.Fft.Layout.{out_width}
use dsp_dispatch.Fft.Scale.{scale-IsScaled}
use dsp_dispatch.Fft.Fftw3.{Fftw}
use dsp_dispatch.Fft.Armpl.{reciprocal, normalize_inverse}

module _ (fftw : Fftw) (output : ℕ) (mem : ℕ → fftw.Float) where
  -- For the types with an inverse, where the number of scalars of the output fits in `size_t`,
  -- `normalize_inverse` multiplies every scalar of the output by 1/n, once.
  pub normalize_inverse_lem :
      (t : FftType) (n batch : ℕ)
      → t ≢ FftType.real_to_complex
      → batch * out_width t n < size_mod
      → (j : ℕ) → j < batch * out_width t n
      → normalize_inverse fftw t n batch output mem (output + j)
        ≡ fftw.mul (mem (output + j)) (reciprocal fftw n)
  unfolding normalize_inverse
  normalize_inverse_lem t n batch ne h =
      (scale-IsScaled fftw.mul output mem t (reciprocal fftw n) n batch ne h).scaled

  -- For the types with an inverse, where the number of scalars of the output fits in `size_t`,
  -- `normalize_inverse` changes no scalar outside the output.
  pub normalize_inverse_frame :
      (t : FftType) (n batch : ℕ)
      → t ≢ FftType.real_to_complex
      → batch * out_width t n < size_mod
      → (j : ℕ) → Outside j output (batch * out_width t n)
      → normalize_inverse fftw t n batch output mem j ≡ mem j
  unfolding normalize_inverse
  normalize_inverse_frame t n batch ne h =
      (scale-IsScaled fftw.mul output mem t (reciprocal fftw n) n batch ne h).others
