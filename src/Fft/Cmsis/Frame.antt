-- ===== src/Fft/Cmsis/Frame.antt =====
-- What calls leave alone.
use dsp_dispatch.Base.{ℕ, ◌*◌, ◌<◌, ◌≡◌, refl, arith, false, true, Outside, size_mod}
use dsp_dispatch.Fft.Types.{FftType}
use dsp_dispatch.Fft.Layout.{out_width}
use dsp_dispatch.Fft.Cmsis.{ArmMath, CmsisFftState, cmsis_execute}
use dsp_dispatch.Fft.Cmsis.Local.{IsLocal}
use dsp_dispatch.Fft.Cmsis.Complex.{complex_frame}
use dsp_dispatch.Fft.Cmsis.Real.{IsReal, IsTransform, real_to_complex_frame, complex_to_real_frame}

-- What a call of a type asks of the sizes, and of the transforms of the library.
abbrev pub IsSound :
    {arm : ArmMath} → CmsisFftState arm → ((ℕ → arm.Float) → ℕ → arm.Float) → FftType → Type 0
IsSound {arm} s f FftType.complex =
    (0 < s.n) × (s.batch * (2 * s.n) < size_mod) × IsLocal (2 * s.n) (arm.cfft s.cfft s.inverse)
IsSound {arm} s f FftType.real_to_complex = IsReal s × IsTransform arm s.rfft false s.n f
IsSound {arm} s f FftType.complex_to_real = IsReal s × IsTransform arm s.rfft true s.n f

module _ {arm : ArmMath} (s : CmsisFftState arm) (input output : ℕ)
    (f : (ℕ → arm.Float) → ℕ → arm.Float) (mem : ℕ → arm.Float) (j : ℕ) where
  bins_width : IsReal s → 2 * s.bins ≡ out_width FftType.real_to_complex s.n
  bins_width real = omega (arith, real.bins, real.even)

  frame_at :
      (t : FftType)
      → s.type ≡ t
      → IsSound s f t
      → Outside j output (s.batch * out_width t s.n)
      → (cmsis_execute s input output mem).2 j ≡ mem j
  frame_at FftType.complex e sound o =
      complex_frame s input output sound.0 sound.1 sound.2 mem j e o
  frame_at FftType.real_to_complex e sound o =
      real_to_complex_frame s input output sound.0 f sound.1 mem j e (rw (bins_width sound.0) o)
  frame_at FftType.complex_to_real e sound o =
      complex_to_real_frame s input output sound.0 f sound.1 mem j e o

  -- A call of any type changes no scalar outside the rows of its output, where the length is above 0
  -- (and even, for the real types), the sizes fit in `size_t`, and the result of the library's
  -- transform in the direction of the type depends on the row only.
  pub cmsis_execute_frame :
      IsSound s f s.type
      → Outside j output (s.batch * out_width s.type s.n)
      → (cmsis_execute s input output mem).2 j ≡ mem j
  cmsis_execute_frame sound o = frame_at s.type refl sound o
