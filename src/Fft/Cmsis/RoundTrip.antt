-- ===== src/Fft/Cmsis/RoundTrip.antt =====
-- What the two real cases of `cmsis_execute` are to one another and to the public contract.
use dsp_dispatch.Base.{
  ℕ, ◌+◌, ◌*◌, ◌<◌, ◌≡◌, ◌≢◌, refl, sym, ◌∙◌, arith, Vector, Disjoint, Bool, true, false,
}
use dsp_dispatch.Fft.Types.{FftType}
use dsp_dispatch.Fft.Cmsis.{ArmMath, CmsisFftState, half, cmsis_execute}
use dsp_dispatch.Fft.Cmsis.Spectrum.{public_of, packed_congr, packed-public}
use dsp_dispatch.Fft.Cmsis.Real.{IsTransform, IsReal, real_to_complex-public, complex_to_real-reals}

local_of :
    (arm : ArmMath) (r : arm.Rfft) (inverse : Bool) (n : ℕ) (f : (ℕ → arm.Float) → ℕ → arm.Float)
    → IsTransform arm r inverse n f
    → (u v : ℕ → arm.Float) → ((j : ℕ) → j < n → u j ≡ v j)
    → (j : ℕ) → j < n
    → f u j ≡ f v j
local_of arm r inverse n f t u v same j hj = sym (t u u u (λ i hi. refl) j hj) ∙ t u v u same j hj

module _ {arm : ArmMath} where
  open arm use {Float}

  module _ (s : CmsisFftState arm) (input output : ℕ) (real : IsReal s)
      (g : (ℕ → Float) → ℕ → Float) (inverts : IsTransform arm s.rfft true s.n g) where
    -- `ComplexToReal` ignores the imaginary parts of the DC and the Nyquist bin: inputs that differ
    -- there only give the same output, for an even length above 0, sizes that fit in `size_t` and
    -- buffers that do not overlap.
    pub complex_to_real-ignores :
        (mem mem' : ℕ → Float)
        → s.type ≡ FftType.complex_to_real
        → Disjoint input (s.batch * (2 * s.bins)) output (s.batch * s.n)
        → ((b i : ℕ)
            → b < s.batch
            → i < 2 * s.bins
            → i ≢ 1
            → i ≢ 2 * half s + 1
            → mem (input + b * (2 * s.bins) + i) ≡ mem' (input + b * (2 * s.bins) + i))
        → (b j : ℕ) → b < s.batch
        → j < s.n
        → (cmsis_execute s input output mem).2 (output + b * s.n + j)
          ≡ (cmsis_execute s input output mem').2 (output + b * s.n + j)
    complex_to_real-ignores mem mem' e apart same b j hb hj =
        complex_to_real-reals s input output real g inverts mem e apart b j hb hj
        ∙ local_of arm s.rfft true s.n g inverts _ _
            (λ i hi.
              packed_congr (half s) _ _ real.pos
                (λ m hm ne ne'. same b m hb (omega (arith, real.bins)) ne ne') i
                (omega (arith, real.even)))
            j hj
        ∙ sym (complex_to_real-reals s input output real g inverts mem' e apart b j hb hj)

  module _ (s : CmsisFftState arm) (r : arm.Rfft) (a b : Vector Float) (real : IsReal s)
      (forward_type : s.type ≡ FftType.real_to_complex) (f g : (ℕ → Float) → ℕ → Float)
      (transforms : IsTransform arm s.rfft false s.n f) (inverts : IsTransform arm r true s.n g)
      (inverse_of : (u : ℕ → Float) (j : ℕ) → j < s.n → g (f u) j ≡ u j) where
    -- The state of a `ComplexToReal` plan of the same length and batch.
    abbrev back : CmsisFftState arm
    back = record s { type = FftType.complex_to_real; rfft = r; a = a; b = b }

    -- Where the library's inverse undoes its forward transform on packed spectra, `ComplexToReal`
    -- undoes `RealToComplex`, for an even length above 0, sizes that fit in `size_t` and buffers that
    -- do not overlap: the reals come back, through the public layout of the bins.
    pub real_round_trip :
        (input middle output : ℕ) (mem : ℕ → Float)
        → Disjoint input (s.batch * s.n) middle (s.batch * (2 * s.bins))
        → Disjoint middle (s.batch * (2 * s.bins)) output (s.batch * s.n)
        → (c j : ℕ) → c < s.batch
        → j < s.n
        → (cmsis_execute back middle output (cmsis_execute s input middle mem).2).2
            (output + c * s.n + j)
          ≡ mem (input + c * s.n + j)
    real_round_trip input middle output mem apart apart' c j hc hj =
        complex_to_real-reals back middle output back-IsReal g inverts _ refl apart' c j hc hj
        ∙ local_of arm r true s.n g inverts _ (f row)
            (λ i hi.
              packed_congr (half s) _ (public_of arm.zero (half s) (f row)) real.pos
                (λ m hm ne ne'.
                  real_to_complex-public s input middle real f transforms mem forward_type apart c m
                    hc (omega (arith, real.bins)))
                i (omega (arith, real.even))
              ∙ packed-public arm.zero (half s) (f row) i real.pos (omega (arith, real.even)))
            j hj
        ∙ inverse_of row j hj
      where
        row : ℕ → Float
        row i = mem (input + c * s.n + i)

        back-IsReal : IsReal back
        back-IsReal = record {
          pos = real.pos;
          even = real.even;
          bins = real.bins;
          fits = real.fits;
        }
