-- ===== src/Fft/Fftw.antt =====
-- bench/backends/fftw/fftw_backend.cpp, the FFT over FFTW that the benchmarks compare with. Children
-- prove its properties.
pub mod Plan
mod Tests
use dsp_dispatch.Base.{
  ℕ, suc, if◌then◌else◌, Bool, true, false, not, ◌||◌, ◌-◌, ◌+◌, Option, none, some, mul_size,
  Memory, for_range, [], ◌∷◌,
}
use dsp_dispatch.Base.Int.{to_int}
use dsp_dispatch.Fft.Types.{
  Status, FftType, FftPrecision, FftPlanConfig, Result, of_value, of_status, is_empty, is_inverse,
}
use dsp_dispatch.Fft.Scale.{scale_complex}
use dsp_dispatch.Fft.Plan.{BackendPlan}
use dsp_dispatch.Fft.Fftw3.{Fftw, Live, Machine, count}

-- `cfg.type != FftType::Complex`
abbrev pub is_complex : FftType → Bool
is_complex FftType.complex = true
is_complex _ = false

-- `cfg.precision != FftPrecision::F32`
abbrev pub is_f32 : FftPrecision → Bool
is_f32 FftPrecision.f32 = true
is_f32 FftPrecision.f64 = false

-- Over the library for single precision.
module _ (fftwf : Fftw) where
  open fftwf use {Float}

  -- `FftwState`; of the scratch pointers only whether they are null.
  pub record FftwState : Type 0 where
    pub plan : Option fftwf.Plan
    pub n : ℕ
    pub batch : ℕ
    pub inverse : Bool
    pub has_in : Bool
    pub has_out : Bool

  -- the loop that applies 1/n
  unfoldable pub normalize : (n batch output : ℕ) → Memory Float → Memory Float
  normalize n batch output mem =
      let inv_n = fftwf.div fftwf.one (fftwf.of_size n) in
      for_range (mul_size n batch) 0 (scale_complex fftwf.mul inv_n output) mem

  -- `fftw_execute`. (A state that is in use has its plan.)
  unfoldable pub fftw_execute :
      FftwState → (input output : ℕ) → Machine Float → Status × FftwState × Machine Float
  fftw_execute s input output m =
      let ran : Memory Float = elim s.plan [
        | none ↦ m.memory
        | some q ↦ fftwf.fftw_execute_dft q input output m.memory
      ] in
      let memory = if s.inverse then normalize s.n s.batch output ran else ran in
      (Status.ok, s, record m { memory = memory })

  -- `~FftwState`
  unfoldable pub release : FftwState → Live → Live
  release s l = record {
    plans = elim s.plan [ none ↦ l.plans | some _ ↦ l.plans - 1 ];
    blocks =
        let left = if s.has_in then l.blocks - 1 else l.blocks in
        if s.has_out then left - 1 else left;
  }

  -- `fftw_destroy`
  unfoldable pub fftw_destroy : FftwState → Machine Float → Machine Float
  fftw_destroy s m = record m { live = release s m.live }

  -- `sizeof(fftwf_complex) * count`
  abbrev pub scratch_bytes : FftPlanConfig → ℕ
  scratch_bytes cfg = mul_size 8 (mul_size cfg.length cfg.batch)

  -- The new state with its scratch buffers, before planning.
  abbrev pub scratch_state : FftPlanConfig → FftwState
  scratch_state cfg = record {
    plan = none;
    n = cfg.length;
    batch = cfg.batch;
    inverse = is_inverse cfg.direction;
    has_in = fftwf.granted 0 (scratch_bytes cfg);
    has_out = fftwf.granted 1 (scratch_bytes cfg);
  }

  abbrev pub plan_of : FftPlanConfig → FftwState → BackendPlan (Machine Float)
  plan_of cfg s = record {
    State = FftwState;
    state = s;
    execute = fftw_execute;
    destroy = fftw_destroy;
    workspace_bytes = mul_size (scratch_bytes cfg) 2;
    name = "fftw";
  }

  -- the call of the planner
  unfoldable pub make_plan : FftPlanConfig → Option fftwf.Plan
  make_plan cfg =
      fftwf.fftw_plan_many_dft 1 (to_int cfg.length ∷ []) (to_int cfg.batch) 1 (to_int cfg.length) 1
        (to_int cfg.length) (is_inverse cfg.direction)

  -- `make_backend_plan`, with what is live after it
  unfoldable pub make_backend_plan :
      FftPlanConfig → Live → Result (BackendPlan (Machine Float)) × Live
  make_backend_plan cfg l =
      if is_empty cfg
      then (of_status Status.invalid_argument, l)
      else if not (is_complex cfg.type) || not (is_f32 cfg.precision)
      then (of_status Status.unsupported_config, l)
      else let s = scratch_state cfg in
        let l' : Live = record l { blocks = l.blocks + count s.has_in + count s.has_out } in
        if not s.has_in || not s.has_out
        then (of_status Status.backend_error, release s l')
        else elim (make_plan cfg) [
          | none ↦ (of_status Status.backend_error, release s l')
          | some q ↦ (
            of_value (plan_of cfg (record s { plan = some q })),
            record l' { plans = suc l'.plans },
          )
        ]
