-- ===== src/Fft/Fftw/Tests.antt =====
-- The theorem on the FFTW backend at a concrete configuration.
use dsp_dispatch.Base.{◌≡◌}
use dsp_dispatch.Fft.Types.{FftDirection}
use dsp_dispatch.Fft.Examples.{toy, nothing}
use dsp_dispatch.Fft.Fftw.Plan.{observe, from_fftw, from_armpl, fftw-armpl}

fftw-armpl_example :
    observe (from_fftw (λ _. toy) 4 2 FftDirection.inverse nothing) 0 16 (λ a. a)
    ≡ observe (from_armpl (λ _. toy) 4 2 FftDirection.inverse nothing) 0 16 (λ a. a)
fftw-armpl_example = fftw-armpl (λ _. toy) 4 2 FftDirection.inverse nothing 0 16 (λ a. a)
