-- ===== src/Fft/Cmsis/Real.antt =====
-- Cases `RealToComplex` and `ComplexToReal` of `cmsis_execute`, and their round trip.
use native.Mathlib.Nat.{mul-le-mul_left}
use dsp_dispatch.Base.{
  ℕ, ◌+◌, ◌*◌, ◌<◌, ◌≤◌, ◌≡◌, refl, ◌∙◌, arith, size_mod, mul_size, mul_size_pairs, mul_size_row,
  copy, copy_inside, Outside, Disjoint, Disjoint-IsOrdered, IsRound, rows_frame, rows_lem, Bool,
  true, false,
}
use dsp_dispatch.Fft.Types.{FftType}
use dsp_dispatch.Fft.Cmsis.{
  ArmMath, CmsisFftState, Work, half, pack, real_to_complex_round, complex_to_real_round,
  cmsis_execute,
}
use dsp_dispatch.Fft.Cmsis.Spectrum.{
  bin_re, bin_im, packed_of, public_of, public_even, public_odd, public_congr, packed_congr,
  unpack_lem, unpack_frame, pack_lem,
}

-- What the documentation says of `arm_rfft_fast_f32` with an instance for `n` values: the first `n`
-- values of the destination are determined by the first `n` of the source.
abbrev pub IsTransform :
    (arm : ArmMath) → arm.Rfft → Bool → ℕ → ((ℕ → arm.Float) → ℕ → arm.Float) → Type 0
IsTransform arm r inverse n f =
    (u v old : ℕ → arm.Float)
    → ((j : ℕ) → j < n → u j ≡ v j)
    → (j : ℕ) → j < n
    → (arm.rfft r inverse u old).1 j ≡ f v j

-- Sizes of a real plan: an even length, and products that fit in `size_t`.
pub record IsReal {arm : ArmMath} (s : CmsisFftState arm) : Type 0 where
  pub pos : 0 < half s
  pub even : 2 * half s ≡ s.n
  pub bins : s.bins ≡ half s + 1
  pub fits : s.batch * (2 * s.bins) < size_mod

module _ {arm : ArmMath} (s : CmsisFftState arm) (input output : ℕ) (real : IsReal s) where
  open arm use {Float}

  reals_offset : (b : ℕ) → b < s.batch → mul_size b s.n ≡ b * s.n
  reals_offset b hb = mul_size_row b s.batch s.n hb (
      omega (
        arith,
        real.even,
        real.bins,
        real.fits,
        mul-le-mul_left {m = s.n} {n = 2 * s.bins} s.batch (omega (arith, real.even, real.bins)),
      ))

  bins_offset : (b : ℕ) → b < s.batch → mul_size (mul_size b 2) s.bins ≡ b * (2 * s.bins)
  bins_offset b hb = mul_size_pairs b s.batch s.bins (omega (arith, real.bins)) hb real.fits

  module _ (f : (ℕ → Float) → ℕ → Float) (transforms : IsTransform arm s.rfft false s.n f) where
    abbrev bins_of : (ℕ → ℕ → Float) → ℕ → ℕ → Float
    bins_of row b = public_of arm.zero (half s) (f (row b))

    -- buffer `a` after the row is copied in
    abbrev loaded : ℕ → Work Float → ℕ → Float
    loaded b w = copy s.n (λ i. w.memory (input + b * s.n + i)) 0 w.a.at

    spectrum_of :
        (row : ℕ → ℕ → Float) (b : ℕ) (w : Work Float)
        → ((i : ℕ) → i < s.n → w.memory (input + b * s.n + i) ≡ row b i)
        → (j : ℕ) → j < 2 * s.bins
        → public_of arm.zero (half s) (arm.rfft s.rfft false (loaded b w) w.b.at).1 j
          ≡ bins_of row b j
    spectrum_of row b w reads j hj =
        public_congr arm.zero (half s) _ (f (row b)) real.pos
          (λ i hi.
            transforms (loaded b w) (row b) w.b.at (λ m hm. ground (arith, reads m hm)) i
              (omega (arith, real.even)))
          j (omega (arith, real.bins))

    real_to_complex-IsRound :
        (row : ℕ → ℕ → Float)
        → IsRound
            (λ (w : Work Float). w.memory)
            s.batch
            input
            output
            s.n
            (2 * s.bins)
            (real_to_complex_round s input output)
            row
            (bins_of row)
            (λ _ _. Unit {0})
            (λ _ _. Unit {0})
    unfolding real_to_complex_round
    real_to_complex-IsRound row = record {
      frame = λ b w j hb o.
          rw (reals_offset b hb, bins_offset b hb)
            (unpack_frame s real.pos _ _ w.memory j (omega (arith, real.bins)));
      serve = λ b w hb r reads. (
        λ j hj.
            rw (reals_offset b hb, bins_offset b hb)
              (unpack_lem s real.pos _ _ w.memory j (omega (arith, real.bins))
                ∙ spectrum_of row b w reads j hj),
        tt,
      );
      keep_ready = λ b c w h hc r. tt;
      keep_done = λ b c w h hb r. tt;
    }

    -- The output of case `RealToComplex`, value by value.
    pub real_to_complex-public :
        (mem : ℕ → Float)
        → s.type ≡ FftType.real_to_complex
        → Disjoint input (s.batch * s.n) output (s.batch * (2 * s.bins))
        → (b j : ℕ) → b < s.batch
        → j < 2 * s.bins
        → (cmsis_execute s input output mem).2 (output + b * (2 * s.bins) + j)
          ≡ public_of arm.zero (half s) (f (λ i. mem (input + b * s.n + i))) j
    unfolding cmsis_execute
    real_to_complex-public mem e apart b j hb hj = simp e (
        (rows_lem _ s.batch input output s.n (2 * s.bins) (real_to_complex_round s input output) row
            (bins_of row) _ _ (real_to_complex-IsRound row)
            (Disjoint-IsOrdered s.batch input s.n output (2 * s.bins) apart) _ (λ c hc. tt)
            (λ c hc i hi. refl) b hb).0
          j hj)
      where
        row : ℕ → ℕ → Float
        row c i = mem (input + c * s.n + i)

    -- A call of type `RealToComplex`, for an even length above 0, sizes that fit in `size_t` and
    -- buffers that do not overlap, writes for every row the N/2 + 1 bins of the library's
    -- transform of the row: DC and Nyquist with a zero imaginary part, and every other bin with
    -- the two parts that CMSIS packs.
    pub real_to_complex-bins :
        (mem : ℕ → Float)
        → s.type ≡ FftType.real_to_complex
        → Disjoint input (s.batch * s.n) output (s.batch * (2 * s.bins))
        → (b k : ℕ) → b < s.batch
        → k ≤ half s
        → ((cmsis_execute s input output mem).2 (output + b * (2 * s.bins) + 2 * k)
            ≡ bin_re (half s) (f (λ i. mem (input + b * s.n + i))) k)
          × ((cmsis_execute s input output mem).2 (output + b * (2 * s.bins) + (2 * k + 1))
              ≡ bin_im arm.zero (half s) (f (λ i. mem (input + b * s.n + i))) k)
    real_to_complex-bins mem e apart b k hb hk = (
      real_to_complex-public mem e apart b (2 * k) hb (omega (arith, real.bins))
          ∙ public_even arm.zero (half s) (f (λ i. mem (input + b * s.n + i))) k,
      real_to_complex-public mem e apart b (2 * k + 1) hb (omega (arith, real.bins))
          ∙ public_odd arm.zero (half s) (f (λ i. mem (input + b * s.n + i))) k,
    )

    -- A call of type `RealToComplex`, for an even length above 0 and sizes that fit in `size_t`,
    -- over a library that transforms rows, changes no scalar outside its output buffer of `batch *
    -- 2 * bins` scalars.
    pub real_to_complex_frame :
        (mem : ℕ → Float) (j : ℕ)
        → s.type ≡ FftType.real_to_complex
        → Outside j output (s.batch * (2 * s.bins))
        → (cmsis_execute s input output mem).2 j ≡ mem j
    unfolding cmsis_execute
    real_to_complex_frame mem j e o = simp e (
        rows_frame _ s.batch input output s.n (2 * s.bins) (real_to_complex_round s input output)
          (λ c i. mem i) (bins_of (λ c i. mem i)) _ _ (real_to_complex-IsRound (λ c i. mem i)) _ j
          o)

  module _ (f : (ℕ → Float) → ℕ → Float) (transforms : IsTransform arm s.rfft true s.n f) where
    abbrev reals_of : (ℕ → ℕ → Float) → ℕ → ℕ → Float
    reals_of row b = f (packed_of (half s) (row b))

    complex_to_real-IsRound :
        (row : ℕ → ℕ → Float)
        → IsRound
            (λ (w : Work Float). w.memory)
            s.batch
            input
            output
            (2 * s.bins)
            s.n
            (complex_to_real_round s input output)
            row
            (reals_of row)
            (λ _ _. Unit {0})
            (λ _ _. Unit {0})
    unfolding complex_to_real_round
    complex_to_real-IsRound row = record {
      frame = λ b w j hb o. rw (reals_offset b hb, bins_offset b hb) (ground arith);
      serve = λ b w hb r reads.
          (λ j hj. rw (reals_offset b hb, bins_offset b hb) (served b w reads j hj), tt);
      keep_ready = λ b c w h hc r. tt;
      keep_done = λ b c w h hb r. tt;
    }
      where
        served :
            (b : ℕ) (w : Work Float)
            → ((i : ℕ) → i < 2 * s.bins → w.memory (input + b * (2 * s.bins) + i) ≡ row b i)
            → (j : ℕ) → j < s.n
            → copy s.n
                (arm.rfft s.rfft true (pack s (input + b * (2 * s.bins)) w.memory w.a).at w.b.at).1
                (output + b * s.n)
                w.memory
                (output + b * s.n + j)
              ≡ reals_of row b j
        served b w reads j hj =
            copy_inside s.n
              (arm.rfft s.rfft true (pack s (input + b * (2 * s.bins)) w.memory w.a).at w.b.at).1
              (output + b * s.n) w.memory j hj
            ∙ transforms _ (packed_of (half s) (row b)) w.b.at
                (λ i hi.
                  pack_lem s real.pos (input + b * (2 * s.bins)) w.memory w.a i
                    (omega (arith, real.even))
                  ∙ packed_congr (half s) _ (row b) real.pos
                      (λ m hm ne ne'. reads m (omega (arith, real.bins))) i
                      (omega (arith, real.even)))
                j hj

    -- A call of type `ComplexToReal`, for an even length above 0, sizes that fit in `size_t` and buffers
    -- that do not overlap, writes to each row of the output the library's transform of the row of bins
    -- of the input, packed.
    pub complex_to_real-reals :
        (mem : ℕ → Float)
        → s.type ≡ FftType.complex_to_real
        → Disjoint input (s.batch * (2 * s.bins)) output (s.batch * s.n)
        → (b j : ℕ) → b < s.batch
        → j < s.n
        → (cmsis_execute s input output mem).2 (output + b * s.n + j)
          ≡ f (packed_of (half s) (λ i. mem (input + b * (2 * s.bins) + i))) j
    unfolding cmsis_execute
    complex_to_real-reals mem e apart b j hb hj = simp e (
        (rows_lem _ s.batch input output (2 * s.bins) s.n (complex_to_real_round s input output) row
            (reals_of row) _ _ (complex_to_real-IsRound row)
            (Disjoint-IsOrdered s.batch input (2 * s.bins) output s.n apart) _ (λ c hc. tt)
            (λ c hc i hi. refl) b hb).0
          j hj)
      where
        row : ℕ → ℕ → Float
        row c i = mem (input + c * (2 * s.bins) + i)

    -- A call of type `ComplexToReal`, for an even length above 0 and sizes that fit in `size_t`,
    -- over a library that transforms rows, changes no scalar outside its output buffer of `batch *
    -- n` scalars.
    pub complex_to_real_frame :
        (mem : ℕ → Float) (j : ℕ)
        → s.type ≡ FftType.complex_to_real
        → Outside j output (s.batch * s.n)
        → (cmsis_execute s input output mem).2 j ≡ mem j
    unfolding cmsis_execute
    complex_to_real_frame mem j e o = simp e (
        rows_frame _ s.batch input output (2 * s.bins) s.n (complex_to_real_round s input output)
          (λ c i. mem i) (reals_of (λ c i. mem i)) _ _ (complex_to_real-IsRound (λ c i. mem i)) _ j
          o)
