-- ===== src/Fft/Mkl/Plan.antt =====
-- The MKL backend behind the public interface: its plans serve every transform of the batch.
use dsp_dispatch.Base.{
  ℕ, ◌+◌, ◌*◌, ◌<◌, ◌≡◌, refl, ap, ◌∙◌, fun_ext, arith, Bool, true, false, if◌then◌else◌, Memory,
  Disjoint, some, ◌^◌,
}
use dsp_dispatch.Base.Int.{ℤ}
use dsp_dispatch.Base.Machine.{Machine}
use dsp_dispatch.Fft.Types.{Status, FftType, FftPlanConfig, is_empty, of_value}
use dsp_dispatch.Fft.Direction.{contradicts, inverts, resolve-inverts}
use dsp_dispatch.Fft.Layout.{unit, in_side, out_side, in_width, out_width, Serves}
use dsp_dispatch.Fft.Plan.{FftPlan, fft_plan, create, execute}
use dsp_dispatch.Fft.Mkl.{
  Dfti, domain_of, in_dist, out_dist, prec_of, dfti_ok, MklState, plan_of, mkl_execute, make_typed,
  make_backend_plan,
}
use dsp_dispatch.Fft.Mkl.Settings.{settings, apply, configure-apply}
use dsp_dispatch.Fft.Mkl.Create.{created, accepted}
use dsp_dispatch.Fft.Mkl.View.{
  View, Spectrum, IsDocumented, compute, set_up, reciprocal, apply-IsCommitted,
  with_settings-set_up,
}

in_row : (t : FftType) (n b : ℕ) → b * in_dist t n * unit (in_side t) ≡ b * in_width t n
in_row FftType.complex n b = omega arith
in_row FftType.real_to_complex n b = omega arith
in_row FftType.complex_to_real n b = omega arith

out_row : (t : FftType) (n b : ℕ) → b * out_dist t n * unit (out_side t) ≡ b * out_width t n
out_row FftType.complex n b = omega arith
out_row FftType.real_to_complex n b = omega arith
out_row FftType.complex_to_real n b = omega arith

dist_lt :
    (t : FftType) (n : ℕ) → 0 < n → n < 2 ^ 63 → (in_dist t n < 2 ^ 63) × (out_dist t n < 2 ^ 63)
dist_lt FftType.complex n h l = omega arith
dist_lt FftType.real_to_complex n h l = omega arith
dist_lt FftType.complex_to_real n h l = omega arith

module _ {A : Type 0} (dfti : Dfti A) (f : Spectrum dfti) (doc : IsDocumented dfti f)
    (cfg : FftPlanConfig) (agrees : contradicts cfg.type cfg.direction ≡ false)
    (willing : accepted dfti cfg ≡ true) where
  open dfti use {Double, Descriptor}

  abbrev inverse : Bool
  inverse = inverts cfg.type cfg.direction

  -- What the public contract makes of the transform: a factor of 1/n on the inverse directions.
  abbrev pub normalized : (ℕ → A) → ℕ → A
  normalized =
      f (prec_of cfg.precision) cfg.type inverse
        (if inverse then reciprocal dfti cfg inverse else dfti.one) cfg.length

  abbrev scaled : Double → (ℕ → A) → ℕ → A
  scaled x = f (prec_of cfg.precision) cfg.type inverse x cfg.length

  abbrev factor : Double
  factor = if inverse then reciprocal dfti cfg inverse else dfti.one

  factor_choice :
      (back : Bool)
      → (if back then (if back then reciprocal dfti cfg inverse else dfti.one) else dfti.one)
        ≡ (if back then reciprocal dfti cfg inverse else dfti.one)
  factor_choice true = refl
  factor_choice false = refl

  -- the descriptor of the plan
  abbrev handle : Descriptor
  handle = (apply dfti (settings dfti cfg inverse) (created dfti cfg).1).1

  abbrev begun : View Double
  begun = record doc.default {
    precision = prec_of cfg.precision;
    domain = domain_of cfg.type;
    length = cfg.length;
    scale = dfti.one;
  }

  created-ok : dfti_ok dfti (created dfti cfg).0 ≡ true
  created-ok = ground (arith, willing)

  applied-ok : (apply dfti (settings dfti cfg inverse) (created dfti cfg).1).0 ≡ true
  applied-ok = ground (arith, willing)

  handle-IsCommitted : doc.IsCommitted handle (set_up dfti cfg inverse begun)
  handle-IsCommitted = rw (← with_settings-set_up dfti cfg inverse begun) (
      apply-IsCommitted dfti f doc (settings dfti cfg inverse) (created dfti cfg).1 begun
        (doc.made (prec_of cfg.precision) (domain_of cfg.type) cfg.length created-ok) applied-ok)

  abbrev state : MklState dfti
  state = record { handle = handle; inverse = inverse }

  abbrev plan : FftPlan (Machine A)
  plan = fft_plan (plan_of dfti state)

  create-plan :
      (live : ℕ) → is_empty cfg ≡ false → create (make_backend_plan dfti cfg live).0 ≡ of_value plan
  unfolding create make_backend_plan make_typed
  create-plan live work = simp (
    work,
    resolve-inverts cfg.type cfg.direction agrees,
    configure-apply dfti cfg inverse (created dfti cfg).1,
    created-ok,
    applied-ok,
  )

  compute-choice :
      (back : Bool) (input output : ℕ) (mem : Memory A)
      → (if back
          then dfti.compute_backward handle input output mem
          else dfti.compute_forward handle input output mem)
        ≡ compute dfti back handle input output mem
  compute-choice true input output mem = refl
  compute-choice false input output mem = refl

  module _ (input output : ℕ) (some_length : 0 < cfg.length) (length_fits : cfg.length < 2 ^ 63)
      (some_batch : 0 < cfg.batch) (batch_fits : cfg.batch < 2 ^ 63)
      (apart : Disjoint input
        (cfg.batch * in_width cfg.type cfg.length)
        output
        (cfg.batch * out_width cfg.type cfg.length)) where
    abbrev after : Memory A → ℤ × Memory A
    after mem = compute dfti inverse handle input output mem

    computed-Serves :
        (mem : Memory A)
        → (dfti_ok dfti (after mem).0 ≡ true)
          × Serves 1 cfg.batch
              (in_width cfg.type cfg.length)
              (out_width cfg.type cfg.length)
              normalized
              input
              output
              mem
              (after mem).1
    computed-Serves mem = (
      done.0,
      λ b j hb hj.
          ap (after mem).1 (at_out b j)
          ∙ done.1 b j hb hj
          ∙ ap (λ x. scaled x (λ i. mem (input + b * in_dist t n * unit (in_side t) + i)) j)
              (factor_choice inverse)
          ∙ ap (λ row. normalized row j) (fun_ext (λ i. ap mem (at_in b i))),
    )
      where
        t : FftType
        t = cfg.type

        n : ℕ
        n = cfg.length

        done :
            (dfti_ok dfti (after mem).0 ≡ true)
            × ((b j : ℕ)
                → b < cfg.batch
                → j < out_width t n
                → (after mem).1 (output + b * out_dist t n * unit (out_side t) + j)
                  ≡ scaled
                      (if inverse then factor else dfti.one)
                      (λ i. mem (input + b * in_dist t n * unit (in_side t) + i))
                      j)
        done =
            doc.computed t cfg.direction handle (set_up dfti cfg inverse begun) input output mem
              agrees handle-IsCommitted refl refl (λ real. rw real refl) some_length length_fits
              some_batch batch_fits (dist_lt t n some_length length_fits).0
              (dist_lt t n some_length length_fits).1 (omega (arith, in_row t n 1))
              (omega (arith, out_row t n 1))
              (rw (in_row t n cfg.batch, out_row t n cfg.batch) apart)

        at_out :
            (b j : ℕ)
            → output + (b * out_width t n + j) * 1
              ≡ output + b * out_dist t n * unit (out_side t) + j
        at_out b j = omega (arith, out_row t n b)

        at_in :
            (b i : ℕ)
            → input + b * in_dist t n * unit (in_side t) + i ≡ input + (b * in_width t n + i) * 1
        at_in b i = omega (arith, in_row t n b)

    mkl_execute-Serves :
        (m : Machine A)
        → let (status, s', m') = mkl_execute dfti state input output m in
          (status ≡ Status.ok)
          × (s' ≡ state)
          × (m'.live ≡ m.live)
          × Serves 1 cfg.batch
              (in_width cfg.type cfg.length)
              (out_width cfg.type cfg.length)
              normalized
              input
              output
              m.memory
              m'.memory
    unfolding mkl_execute
    mkl_execute-Serves m =
        let done = computed-Serves m.memory in
        rw (compute-choice inverse input output m.memory, done.0) (refl, refl, refl, done.1)

    -- Over a library that does what DFTI documents and reports no error for the descriptor, its
    -- settings and the commitment, a configuration whose type does not contradict its direction, with
    -- sizes above 0 that fit in MKL_LONG, yields a plan; each call of it, on buffers that are apart,
    -- succeeds, leaves the plan and the live descriptors as they were, and serves the caller with the
    -- transform of the configured precision, times 1/n where it is an inverse one.
    pub mkl-Serves :
        (live : ℕ) (mem : Memory A)
        → (p : FftPlan (Machine A)) × (create (make_backend_plan dfti cfg live).0 ≡ of_value p)
          × (let (status, p', m') =
                execute p (some input) (some output) (record { memory = mem; live = live }) in
              (status ≡ Status.ok)
              × (p' ≡ p)
              × (m'.live ≡ live)
              × Serves 1 cfg.batch
                  (in_width cfg.type cfg.length)
                  (out_width cfg.type cfg.length)
                  normalized
                  input
                  output
                  mem
                  m'.memory)
    unfolding execute
    mkl-Serves live mem =
        let (status, same, kept, served) =
          mkl_execute-Serves (record { memory = mem; live = live }) in
        (
          plan,
          create-plan live (ground arith),
          (status, ap (λ s. record plan { state = s }) same, kept, served),
        )
