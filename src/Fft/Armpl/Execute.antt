-- ===== src/Fft/Armpl/Execute.antt =====
-- `armpl_execute` on a state with its plan, over a library that does what FFTW documents.
use dsp_dispatch.Base.{
  ℕ, ◌+◌, ◌*◌, ◌/◌, ◌^◌, ◌<◌, ◌≡◌, ◌≢◌, refl, sym, ap, ◌∙◌, fun_ext, arith, size_mod, Memory,
  Disjoint, Bool, true, false, some, if◌then◌else◌, row-le,
}
use dsp_dispatch.Base.Int.{to_int, to_int_lem}
use dsp_dispatch.Fft.Types.{Status, FftType, FftDirection}
use dsp_dispatch.Fft.Layout.{unit, in_side, out_side, in_width, out_width, Serves}
use dsp_dispatch.Fft.Direction.{contradicts, inverts, not_real}
use dsp_dispatch.Fft.Fftw3.{Fftw, Machine, Spectrum, planner, runner, IsDocumented, normalized}
use dsp_dispatch.Fft.Armpl.{
  plan_many_dft, plan_many_dft_r2c, plan_many_dft_c2r, ArmplState, make_plan, run_plan,
  armpl_execute, reciprocal, normalize_inverse, idist, odist,
}
use dsp_dispatch.Fft.Armpl.Normalize.{normalize_inverse_lem}

module _ (fftw : Fftw) where
  open fftw use {Float}

  make_plan-planner :
      (t : FftType) (inverse : Bool) (n batch : ℕ)
      → make_plan fftw t inverse n batch
        ≡ planner fftw t (to_int n) (to_int batch) (idist t n) (odist t n) inverse
  unfolding make_plan plan_many_dft plan_many_dft_r2c plan_many_dft_c2r
  make_plan-planner FftType.complex inverse n batch = refl
  make_plan-planner FftType.real_to_complex inverse n batch = refl
  make_plan-planner FftType.complex_to_real inverse n batch = refl

  run_plan-runner : (t : FftType) → run_plan fftw t ≡ runner fftw t
  unfolding run_plan
  run_plan-runner FftType.complex = refl
  run_plan-runner FftType.real_to_complex = refl
  run_plan-runner FftType.complex_to_real = refl

in_row : (t : FftType) (n b : ℕ) → n < 2 ^ 31 → b * idist t n * unit (in_side t) ≡ b * in_width t n
in_row FftType.complex n b h = rw (to_int_lem n h) (omega arith)
in_row FftType.real_to_complex n b h = rw (to_int_lem n h) (omega arith)
in_row FftType.complex_to_real n b h = rw (to_int_lem (n / 2 + 1) (omega arith)) (omega arith)

out_row :
    (t : FftType) (n b : ℕ) → n < 2 ^ 31 → b * odist t n * unit (out_side t) ≡ b * out_width t n
out_row FftType.complex n b h = rw (to_int_lem n h) (omega arith)
out_row FftType.real_to_complex n b h = rw (to_int_lem (n / 2 + 1) (omega arith)) (omega arith)
out_row FftType.complex_to_real n b h = rw (to_int_lem n h) (omega arith)

dist_lt : (t : FftType) (n : ℕ) → 0 < n → n < 2 ^ 31 → (idist t n < 2 ^ 31) × (odist t n < 2 ^ 31)
dist_lt FftType.complex n h l = omega arith
dist_lt FftType.real_to_complex n h l = omega arith
dist_lt FftType.complex_to_real n h l = omega arith

module _ (fftw : Fftw) (f : Spectrum fftw) (doc : IsDocumented fftw f) where
  open fftw use {Float}

  -- A run of a plan that the planner made for `batch` transforms of `n` values serves the caller
  -- with the unscaled transform.
  run_plan-Serves :
      (t : FftType) (inverse : Bool) (n batch : ℕ) (q : fftw.Plan) (input output : ℕ)
      (mem : Memory Float)
      → make_plan fftw t inverse n batch ≡ some q
      → 0 < n
      → n < 2 ^ 31
      → 0 < batch
      → batch < 2 ^ 31
      → Disjoint input (batch * in_width t n) output (batch * out_width t n)
      → Serves 1 batch
          (in_width t n)
          (out_width t n)
          (f t inverse n)
          input
          output
          mem
          (run_plan fftw t q input output mem)
  run_plan-Serves t inverse n batch q input output mem made hn ln hb lb apart b j hj hw =
      ap (λ run. run q input output mem (output + (b * out_width t n + j) * 1))
        (run_plan-runner fftw t)
      ∙ ap (runner fftw t q input output mem) (at_out b j)
      ∙ doc t n batch (idist t n) (odist t n) inverse q input output mem planned hn ln hb lb
          (dist_lt t n hn ln).0 (dist_lt t n hn ln).1 (omega (arith, in_row t n 1 ln))
          (omega (arith, out_row t n 1 ln)) (rw (in_row t n batch ln, out_row t n batch ln) apart) b
          j hj hw
      ∙ ap (λ row. f t inverse n row j) (fun_ext (λ i. ap mem (at_in b i)))
    where
      planned : planner fftw t n batch (idist t n) (odist t n) inverse ≡ some q
      planned =
          ap (λ m. planner fftw t m batch (idist t n) (odist t n) inverse) (sym (to_int_lem n ln))
          ∙ ap (λ m. planner fftw t (to_int n) m (idist t n) (odist t n) inverse)
              (sym (to_int_lem batch lb))
          ∙ sym (make_plan-planner fftw t inverse n batch)
          ∙ made

      at_out :
          (b j : ℕ)
          → output + (b * out_width t n + j) * 1 ≡ output + b * odist t n * unit (out_side t) + j
      at_out b j = omega (arith, out_row t n b ln)

      at_in :
          (b i : ℕ)
          → input + b * idist t n * unit (in_side t) + i ≡ input + (b * in_width t n + i) * 1
      at_in b i = omega (arith, in_row t n b ln)

  normalized-Serves :
      (t : FftType) (inverse : Bool) (n batch input output : ℕ) (mem ran : Memory Float)
      → (inverse ≡ true → t ≢ FftType.real_to_complex)
      → batch * out_width t n < size_mod
      → Serves 1 batch (in_width t n) (out_width t n) (f t inverse n) input output mem ran
      → Serves 1 batch
          (in_width t n)
          (out_width t n)
          (normalized fftw f t inverse n)
          input
          output
          mem
          (if inverse then normalize_inverse fftw t n batch output ran else ran)
  normalized-Serves t true n batch input output mem ran real fits served = λ b j hb hj.
      normalize_inverse_lem fftw output ran t n batch (real refl) fits ((b * out_width t n + j) * 1)
        (omega (arith, row-le (out_width t n) hb))
      ∙ ap (λ v. fftw.mul v (reciprocal fftw n)) (served b j hb hj)
  normalized-Serves t false n batch input output mem ran real fits served = served

  -- On buffers that are apart, a call with a plan for these sizes succeeds, changes neither the state
  -- nor what is live, and serves the caller with the transform, times 1/n where it is an inverse one.
  pub armpl_execute-Serves :
      (t : FftType) (d : FftDirection) (s : ArmplState fftw) (q : fftw.Plan) (input output : ℕ)
      (m : Machine Float)
      → contradicts t d ≡ false
      → s.type ≡ t
      → s.inverse ≡ inverts t d
      → s.plan ≡ some q
      → make_plan fftw t (inverts t d) s.n s.batch ≡ some q
      → 0 < s.n
      → s.n < 2 ^ 31
      → 0 < s.batch
      → s.batch < 2 ^ 31
      → s.batch * out_width t s.n < size_mod
      → Disjoint input (s.batch * in_width t s.n) output (s.batch * out_width t s.n)
      → let (status, s', m') = armpl_execute fftw s input output m in
        (status ≡ Status.ok)
        × (s' ≡ s)
        × (m'.live ≡ m.live)
        × Serves 1 s.batch
            (in_width t s.n)
            (out_width t s.n)
            (normalized fftw f t (inverts t d) s.n)
            input
            output
            m.memory
            m'.memory
  unfolding armpl_execute
  armpl_execute-Serves t d s q input output m agrees et ei eq made hn ln hb lb fits apart =
      let served =
        run_plan-Serves t (inverts t d) s.n s.batch q input output m.memory made hn ln hb lb
          apart in
      (
        refl,
        refl,
        refl,
        rw (eq, et, ei)
            (normalized-Serves t (inverts t d) s.n s.batch input output m.memory _ (not_real t d)
              fits served),
      )
