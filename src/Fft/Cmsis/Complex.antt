-- ===== src/Fft/Cmsis/Complex.antt =====
-- Case `Complex` of `cmsis_execute`.
use dsp_dispatch.Base.{
  ℕ, ◌+◌, ◌*◌, ◌<◌, ◌≡◌, ◌⊎◌, inl, inr, refl, ◌∙◌, arith, size_mod, mul_size, mul_size_pairs,
  mul_size_lem, copy, copy_inside, Outside, Disjoint, IsOrdered, Disjoint-IsOrdered, same-IsOrdered,
  IsRound, rows_frame, rows_lem, row-le,
}
use dsp_dispatch.Fft.Types.{FftType}
use dsp_dispatch.Fft.Cmsis.{ArmMath, CmsisFftState, Work, complex_round, cmsis_execute}
use dsp_dispatch.Fft.Cmsis.Local.{IsLocal}

module _ {arm : ArmMath} (s : CmsisFftState arm) (input output : ℕ) (pos : 0 < s.n)
    (fits : s.batch * (2 * s.n) < size_mod)
    (loc : IsLocal (2 * s.n) (arm.cfft s.cfft s.inverse)) where
  open arm use {Float}

  abbrev spectrum : (ℕ → ℕ → Float) → ℕ → ℕ → Float
  spectrum row b = arm.cfft s.cfft s.inverse (row b)

  -- buffer `a` after the row is copied in
  abbrev loaded : ℕ → Work Float → ℕ → Float
  loaded b w = copy (2 * s.n) (λ i. w.memory (input + b * (2 * s.n) + i)) 0 w.a.at

  two_n : (b : ℕ) → b < s.batch → mul_size 2 s.n ≡ 2 * s.n
  two_n b hb = mul_size_lem 2 s.n (omega (arith, row-le (2 * s.n) hb))

  complex-IsRound :
      (row : ℕ → ℕ → Float)
      → IsRound
          (λ (w : Work Float). w.memory)
          s.batch
          input
          output
          (2 * s.n)
          (2 * s.n)
          (complex_round s input output)
          row
          (spectrum row)
          (λ _ _. Unit {0})
          (λ _ _. Unit {0})
  unfolding complex_round
  complex-IsRound row = record {
    frame = λ b w j hb o. rw (mul_size_pairs b s.batch s.n pos hb fits, two_n b hb) (ground arith);
    serve = λ b w hb r reads. (
      λ j hj. rw (mul_size_pairs b s.batch s.n pos hb fits, two_n b hb) (served b w j hj reads),
      tt,
    );
    keep_ready = λ b c w h hc r. tt;
    keep_done = λ b c w h hb r. tt;
  }
    where
      served :
          (b : ℕ) (w : Work Float) (j : ℕ)
          → j < 2 * s.n
          → ((i : ℕ) → i < 2 * s.n → w.memory (input + b * (2 * s.n) + i) ≡ row b i)
          → copy
              (2 * s.n)
              (arm.cfft s.cfft s.inverse (loaded b w))
              (output + b * (2 * s.n))
              w.memory
              (output + b * (2 * s.n) + j)
            ≡ spectrum row b j
      served b w j hj reads =
          copy_inside (2 * s.n) (arm.cfft s.cfft s.inverse (loaded b w)) (output + b * (2 * s.n))
            w.memory j hj
          ∙ loc (loaded b w) (row b) (λ i hi. ground (arith, reads i hi)) j hj

  -- A call of type `Complex`, for a length above 0 and sizes that fit in `size_t`, writes to each row
  -- of the output the library's transform of the row of the input, each as the caller wrote it, where
  -- the library's result depends on the row only: for input and output that do not overlap, and also
  -- for those that are the same buffer.
  pub complex-transform :
      (mem : ℕ → Float)
      → s.type ≡ FftType.complex
      → Disjoint input (s.batch * (2 * s.n)) output (s.batch * (2 * s.n)) ⊎ (input ≡ output)
      → (b j : ℕ) → b < s.batch
      → j < 2 * s.n
      → (cmsis_execute s input output mem).2 (output + b * (2 * s.n) + j)
        ≡ arm.cfft s.cfft s.inverse (λ i. mem (input + b * (2 * s.n) + i)) j
  unfolding cmsis_execute
  complex-transform mem e place b j hb hj = simp e (
      (rows_lem _ s.batch input output (2 * s.n) (2 * s.n) (complex_round s input output) row
          (spectrum row) _ _ (complex-IsRound row) ordered _ (λ c hc. tt) (λ c hc i hi. refl) b
          hb).0
        j hj)
    where
      row : ℕ → ℕ → Float
      row c i = mem (input + c * (2 * s.n) + i)

      ordered : IsOrdered s.batch input (2 * s.n) output (2 * s.n)
      ordered = elim place [
        | inl apart ↦ Disjoint-IsOrdered s.batch input (2 * s.n) output (2 * s.n) apart
        | inr same ↦ rw same (same-IsOrdered s.batch output (2 * s.n))
      ]

  -- A call of type `Complex`, for a length above 0 and sizes that fit in `size_t`, over a library
  -- whose result depends on the row only, changes no scalar outside its output buffer of `batch *
  -- 2 * n` scalars.
  pub complex_frame :
      (mem : ℕ → Float) (j : ℕ)
      → s.type ≡ FftType.complex
      → Outside j output (s.batch * (2 * s.n))
      → (cmsis_execute s input output mem).2 j ≡ mem j
  unfolding cmsis_execute
  complex_frame mem j e o = simp e (
      rows_frame _ s.batch input output (2 * s.n) (2 * s.n) (complex_round s input output)
        (λ c i. mem i) (spectrum (λ c i. mem i)) _ _ (complex-IsRound (λ c i. mem i)) _ j o)
