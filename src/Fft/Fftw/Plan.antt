-- ===== src/Fft/Fftw/Plan.antt =====
-- The FFTW backend of the benchmarks behind `FftPlan::create`: it does what the ArmPL backend does
-- over the same library.
use dsp_dispatch.Base.{
  ℕ, ◌≡◌, refl, arith, mul_size, add_size, Memory, Option, some, none, Bool-cases, Option-cases,
  inl, inr,
}
use dsp_dispatch.Fft.Types.{
  Status, FftType, FftPrecision, FftPlanConfig, FftDirection, Result, is_empty,
}
use dsp_dispatch.Fft.Plan.{FftPlan, create, execute, destroy}
use dsp_dispatch.Fft.Scale.{scale}
use dsp_dispatch.Fft.Fftw3.{Fftw, Machine, Live}
use dsp_dispatch.Fft.Armpl
use dsp_dispatch.Fft.Fftw.{
  normalize, release, fftw_destroy, fftw_execute, make_plan, make_backend_plan,
}

-- What a caller sees of a creation and, where it gave a plan, of one call of it and of its
-- destruction.
pub record Outcome (A : Type 0) : Type 0 where
  pub status : Status
  pub live : Live
  pub workspace_bytes : Option ℕ
  pub called : Option (Status × Machine A)
  pub left : Option (Machine A)

module _ {A : Type 0} where
  abbrev pub observe :
      Result (FftPlan (Machine A)) × Live → (input output : ℕ) → Memory A → Outcome A
  observe (r, l) input output mem = record {
    status = r.status;
    live = l;
    workspace_bytes = elim r.value [ none ↦ none | some p ↦ some p.workspace_bytes ];
    called = elim r.value [
      | none ↦ none
      | some p ↦
          let (st, p', m) =
            execute p (some input) (some output) (record { memory = mem; live = l }) in
          some (st, m)
    ];
    left = elim r.value [
      | none ↦ none
      | some p ↦
          let (st, p', m) =
            execute p (some input) (some output) (record { memory = mem; live = l }) in
          some (destroy p' m)
    ];
  }

scratch_same :
    (n batch : ℕ) → mul_size 8 (mul_size n batch) ≡ mul_size 4 (mul_size (mul_size n batch) 2)
unfolding mul_size
scratch_same n batch = omega arith

workspace_same :
    (n batch : ℕ)
    → mul_size (mul_size 4 (mul_size (mul_size n batch) 2)) 2
      ≡ mul_size 4 (add_size (mul_size (mul_size n batch) 2) (mul_size (mul_size n batch) 2))
unfolding mul_size add_size
workspace_same n batch = omega arith

module _ (fftw : FftPrecision → Fftw) (length batch : ℕ) (direction : FftDirection) where
  abbrev library : Fftw
  library = fftw FftPrecision.f32

  -- complex transforms of floats
  abbrev pub config : FftPlanConfig
  config = record {
    type = FftType.complex;
    precision = FftPrecision.f32;
    length = length;
    batch = batch;
    direction = direction;
  }

  abbrev pub from_fftw : Live → Result (FftPlan (Machine library.Float)) × Live
  from_fftw l = let (r, l') = make_backend_plan library config l in (create r, l')

  abbrev pub from_armpl : Live → Result (FftPlan (Machine library.Float)) × Live
  from_armpl l = let (r, l') = Armpl.make_backend_plan fftw config l in (create r, l')

  normalize_same :
      (output : ℕ) (mem : Memory library.Float)
      → normalize library length batch output mem
        ≡ Armpl.normalize_inverse library FftType.complex length batch output mem
  unfolding normalize Armpl.normalize_inverse scale
  normalize_same output mem = refl

  -- Over one library, and for every complex F32 configuration, the FFTW backend of the benchmarks
  -- does what the ArmPL backend does: creation has the same status and leaves the same live, the
  -- plans report the same workspace, a call of one has the status and leaves the machine that a call
  -- of the other does, and so does the destruction after it.
  pub fftw-armpl :
      (l : Live) (input output : ℕ) (mem : Memory library.Float)
      → observe (from_fftw l) input output mem ≡ observe (from_armpl l) input output mem
  unfolding create execute destroy make_backend_plan Armpl.make_backend_plan Armpl.make_typed
      release Armpl.release make_plan Armpl.make_plan Armpl.plan_many_dft fftw_execute
      Armpl.armpl_execute fftw_destroy Armpl.armpl_destroy Armpl.run_plan normalize
      Armpl.normalize_inverse scale
  fftw-armpl l input output mem = elim (Bool-cases (is_empty config)) [
    | inl e ↦ simp e
    | inr e ↦ elim (Bool-cases (library.granted 0 bytes)) [
      | inl granted_in ↦ elim (Bool-cases (library.granted 1 bytes)) [
        | inl granted_out ↦ elim (Option-cases (make_plan library config)) [
          | inl none_made ↦ simp (scratch_same length batch, e, granted_in, granted_out, none_made)
          | inr (q, made) ↦ simp (
            scratch_same length batch,
            workspace_same length batch,
            e,
            granted_in,
            granted_out,
            made,
          )
        ]
        | inr refused_out ↦ simp (scratch_same length batch, e, granted_in, refused_out)
      ]
      | inr refused_in ↦ simp (scratch_same length batch, e, refused_in)
    ]
  ]
    where
      bytes : ℕ
      bytes = mul_size 4 (mul_size (mul_size length batch) 2)
