-- ===== src/Fir/Ipp/Library.antt =====
-- What src/backends/ipp/ipp_fir_backend.cpp calls of ipp.h, and its specialisations of `get_size`,
-- `ipp_init` and `ipp_exec`, which name the function of IPP for a pair of types.
use dsp_dispatch.Base.{ℕ, Option}
use dsp_dispatch.Base.Int.{ℤ}
use dsp_dispatch.Base.Cpp.{CppType, Numbers}

-- The status codes that the backend tells apart.
pub data IppStatus : Type 0 where
  no_err null_ptr_err fir_len_err size_err alg_type_err : IppStatus
  other : ℕ → IppStatus

-- The type codes that `ippsFIRSRGetSize` takes.
pub data IppDataType : Type 0 where
  ipp_32f ipp_64f ipp_32fc ipp_64fc : IppDataType

-- What the backend calls of ipp.h: the functions that give the sizes of the two buffers for a number
-- of taps; those that initialise a specification from the taps, their number and the bytes; and those
-- that filter one block, from the number of samples, the specification, the source, the delay line to
-- read (`none` for a null pointer), and the working buffer. The last return the contents that they
-- give to the destination, to the delay line to write, and to the working buffer.
pub record Ipp (num : Numbers) : Type 1 where
  pub Spec : Type 0
  pub Buffer : Type 0
  pub blank : ℕ → Spec
  pub buffer : ℕ → Buffer
  pub fir_get_size : ℕ → IppDataType → IppStatus × ℤ × ℤ
  pub fir_get_size_32f_32fc : ℕ → IppStatus × ℤ × ℤ
  pub fir_init_32f : (ℕ → num.Value CppType.float) → ℕ → Spec → IppStatus × Spec
  pub fir_init_64f : (ℕ → num.Value CppType.double) → ℕ → Spec → IppStatus × Spec
  pub fir_init_32fc : (ℕ → num.Value CppType.complex_float) → ℕ → Spec → IppStatus × Spec
  pub fir_init_64fc : (ℕ → num.Value CppType.complex_double) → ℕ → Spec → IppStatus × Spec
  pub fir_init_32f_32fc : (ℕ → num.Value CppType.float) → ℕ → Spec → IppStatus × Spec
  pub fir_32f :
      (block : ℕ)
      → Spec
      → (ℕ → num.Value CppType.float)
      → Option (ℕ → num.Value CppType.float)
      → Buffer
      → IppStatus × (ℕ → num.Value CppType.float) × (ℕ → num.Value CppType.float) × Buffer
  pub fir_64f :
      (block : ℕ)
      → Spec
      → (ℕ → num.Value CppType.double)
      → Option (ℕ → num.Value CppType.double)
      → Buffer
      → IppStatus × (ℕ → num.Value CppType.double) × (ℕ → num.Value CppType.double) × Buffer
  pub fir_32fc :
      (block : ℕ)
      → Spec
      → (ℕ → num.Value CppType.complex_float)
      → Option (ℕ → num.Value CppType.complex_float)
      → Buffer
      → IppStatus
        × (ℕ → num.Value CppType.complex_float)
        × (ℕ → num.Value CppType.complex_float)
        × Buffer
  pub fir_64fc :
      (block : ℕ)
      → Spec
      → (ℕ → num.Value CppType.complex_double)
      → Option (ℕ → num.Value CppType.complex_double)
      → Buffer
      → IppStatus
        × (ℕ → num.Value CppType.complex_double)
        × (ℕ → num.Value CppType.complex_double)
        × Buffer
  pub fir_32f_32fc :
      (block : ℕ)
      → Spec
      → (ℕ → num.Value CppType.complex_float)
      → Option (ℕ → num.Value CppType.complex_float)
      → Buffer
      → IppStatus
        × (ℕ → num.Value CppType.complex_float)
        × (ℕ → num.Value CppType.complex_float)
        × Buffer

-- The pairs of `Sample` and `Tap` for which `get_size`, `ipp_init` and `ipp_exec` are specialised.
pub data Special : CppType → CppType → Type 0 where
  s32f_t32f : Special CppType.float CppType.float
  s64f_t64f : Special CppType.double CppType.double
  s32fc_t32fc : Special CppType.complex_float CppType.complex_float
  s64fc_t64fc : Special CppType.complex_double CppType.complex_double
  s32fc_t32f : Special CppType.complex_float CppType.float

module _ {num : Numbers} (ipp : Ipp num) where
  open num use {Value}

  -- `get_size<Sample, Tap>`
  unfoldable pub get_size : {sample tap : CppType} → Special sample tap → ℕ → IppStatus × ℤ × ℤ
  get_size s32f_t32f taps_len = ipp.fir_get_size taps_len IppDataType.ipp_32f
  get_size s64f_t64f taps_len = ipp.fir_get_size taps_len IppDataType.ipp_64f
  get_size s32fc_t32fc taps_len = ipp.fir_get_size taps_len IppDataType.ipp_32fc
  get_size s64fc_t64fc taps_len = ipp.fir_get_size taps_len IppDataType.ipp_64fc
  get_size s32fc_t32f taps_len = ipp.fir_get_size_32f_32fc taps_len

  -- `ipp_init<Sample, Tap>`
  unfoldable pub ipp_init :
      {sample tap : CppType}
      → Special sample tap
      → (ℕ → Value tap)
      → ℕ
      → ipp.Spec
      → IppStatus × ipp.Spec
  ipp_init s32f_t32f taps taps_len spec = ipp.fir_init_32f taps taps_len spec
  ipp_init s64f_t64f taps taps_len spec = ipp.fir_init_64f taps taps_len spec
  ipp_init s32fc_t32fc taps taps_len spec = ipp.fir_init_32fc taps taps_len spec
  ipp_init s64fc_t64fc taps taps_len spec = ipp.fir_init_64fc taps taps_len spec
  ipp_init s32fc_t32f taps taps_len spec = ipp.fir_init_32f_32fc taps taps_len spec

  -- the function that `ipp_exec<Sample, Tap>` returns
  unfoldable pub ipp_exec :
      {sample tap : CppType}
      → Special sample tap
      → (block : ℕ) → ipp.Spec
      → (ℕ → Value sample)
      → Option (ℕ → Value sample)
      → ipp.Buffer
      → IppStatus × (ℕ → Value sample) × (ℕ → Value sample) × ipp.Buffer
  ipp_exec s32f_t32f block spec src dly buf = ipp.fir_32f block spec src dly buf
  ipp_exec s64f_t64f block spec src dly buf = ipp.fir_64f block spec src dly buf
  ipp_exec s32fc_t32fc block spec src dly buf = ipp.fir_32fc block spec src dly buf
  ipp_exec s64fc_t64fc block spec src dly buf = ipp.fir_64fc block spec src dly buf
  ipp_exec s32fc_t32f block spec src dly buf = ipp.fir_32f_32fc block spec src dly buf
