-- ===== src/Fft/Armpl.antt =====
-- src/backends/armpl/armpl_backend.cpp, the FFT over the FFTW interface of Arm Performance
-- Libraries. A child proves each part.
pub mod Normalize
pub mod Execute
pub mod Create
mod Tests
use dsp_dispatch.Base.{
  ℕ, suc, ◌+◌, ◌-◌, ◌/◌, if◌then◌else◌, Bool, not, ◌||◌, Option, none, some, add_size, mul_size,
  Memory, List, [], ◌∷◌,
}
use dsp_dispatch.Base.Int.{to_int}
use dsp_dispatch.Fft.Types.{
  Status, FftType, FftPrecision, FftPlanConfig, Result, of_value, of_status, resolve, is_empty,
}
use dsp_dispatch.Fft.Scale.{scale}
use dsp_dispatch.Fft.Layout.{real_size}
use dsp_dispatch.Fft.Plan.{BackendPlan}
use dsp_dispatch.Fft.Fftw3.{Fftw, Live, Machine, count}

-- `Fftw<Real>`: the planners, with strides of 1 and no physical sizes, and the calls that run a plan.
module _ (fftw : Fftw) where
  open fftw use {Float}

  unfoldable pub plan_many_dft :
      (rank : ℕ) (n : List ℕ) (howmany idist odist : ℕ) (backward : Bool) → Option fftw.Plan
  plan_many_dft rank n howmany idist odist backward =
      fftw.fftw_plan_many_dft rank n howmany 1 idist 1 odist backward

  unfoldable pub plan_many_dft_r2c :
      (rank : ℕ) (n : List ℕ) (howmany idist odist : ℕ) → Option fftw.Plan
  plan_many_dft_r2c rank n howmany idist odist =
      fftw.fftw_plan_many_dft_r2c rank n howmany 1 idist 1 odist

  unfoldable pub plan_many_dft_c2r :
      (rank : ℕ) (n : List ℕ) (howmany idist odist : ℕ) → Option fftw.Plan
  plan_many_dft_c2r rank n howmany idist odist =
      fftw.fftw_plan_many_dft_c2r rank n howmany 1 idist 1 odist

module _ (fftw : Fftw) where
  open fftw use {Float}

  -- `ArmplState<Real>`; of the scratch pointers only whether they are null.
  pub record ArmplState : Type 0 where
    pub plan : Option fftw.Plan
    pub type : FftType
    pub inverse : Bool
    pub n : ℕ
    pub batch : ℕ
    pub has_in : Bool
    pub has_out : Bool

  -- `inv`
  abbrev pub reciprocal : ℕ → Float
  reciprocal n = fftw.div fftw.one (fftw.of_size n)

  -- `normalize_inverse`
  unfoldable pub normalize_inverse : FftType → (n batch output : ℕ) → Memory Float → Memory Float
  normalize_inverse t n batch output mem = scale fftw.mul t (reciprocal n) n batch output mem

  -- The switch of `armpl_execute`.
  unfoldable pub run_plan : FftType → fftw.Plan → (input output : ℕ) → Memory Float → Memory Float
  run_plan FftType.complex = fftw.fftw_execute_dft
  run_plan FftType.real_to_complex = fftw.fftw_execute_dft_r2c
  run_plan FftType.complex_to_real = fftw.fftw_execute_dft_c2r

  -- `armpl_execute`. (A state that is in use has its plan.)
  unfoldable pub armpl_execute :
      ArmplState → (input output : ℕ) → Machine Float → Status × ArmplState × Machine Float
  armpl_execute s input output m =
      let ran : Memory Float = elim s.plan [
        | none ↦ m.memory
        | some q ↦ run_plan s.type q input output m.memory
      ] in
      let memory = if s.inverse then normalize_inverse s.type s.n s.batch output ran else ran in
      (Status.ok, s, record m { memory = memory })

  -- `~ArmplState`
  unfoldable pub release : ArmplState → Live → Live
  release s l = record {
    plans = elim s.plan [ none ↦ l.plans | some _ ↦ l.plans - 1 ];
    blocks =
        let left = if s.has_in then l.blocks - 1 else l.blocks in
        if s.has_out then left - 1 else left;
  }

  -- `armpl_destroy`
  unfoldable pub armpl_destroy : ArmplState → Machine Float → Machine Float
  armpl_destroy s m = record m { live = release s m.live }

-- The elements from a transform to the next, and the scalars of the scratch buffers.
abbrev pub idist : FftType → (n : ℕ) → ℕ
idist FftType.complex n = to_int n
idist FftType.real_to_complex n = to_int n
idist FftType.complex_to_real n = to_int (n / 2 + 1)

abbrev pub odist : FftType → (n : ℕ) → ℕ
odist FftType.complex n = to_int n
odist FftType.real_to_complex n = to_int (n / 2 + 1)
odist FftType.complex_to_real n = to_int n

abbrev pub in_scratch : FftType → (n batch : ℕ) → ℕ
in_scratch FftType.complex n batch = mul_size (mul_size n batch) 2
in_scratch FftType.real_to_complex n batch = mul_size n batch
in_scratch FftType.complex_to_real n batch = mul_size (mul_size (n / 2 + 1) batch) 2

abbrev pub out_scratch : FftType → (n batch : ℕ) → ℕ
out_scratch FftType.complex n batch = mul_size (mul_size n batch) 2
out_scratch FftType.real_to_complex n batch = mul_size (mul_size (n / 2 + 1) batch) 2
out_scratch FftType.complex_to_real n batch = mul_size n batch

module _ (fftw : Fftw) where
  open fftw use {Float}

  -- The second switch of `make_typed`.
  unfoldable pub make_plan : FftType → (inverse : Bool) → (n batch : ℕ) → Option fftw.Plan
  make_plan FftType.complex inverse n batch =
      plan_many_dft fftw 1 (to_int n ∷ []) (to_int batch) (idist FftType.complex n)
        (odist FftType.complex n) inverse
  make_plan FftType.real_to_complex inverse n batch =
      plan_many_dft_r2c fftw 1 (to_int n ∷ []) (to_int batch) (idist FftType.real_to_complex n)
        (odist FftType.real_to_complex n)
  make_plan FftType.complex_to_real inverse n batch =
      plan_many_dft_c2r fftw 1 (to_int n ∷ []) (to_int batch) (idist FftType.complex_to_real n)
        (odist FftType.complex_to_real n)

  -- The new state with its scratch buffers, before planning, and what is then live.
  abbrev pub scratch_state : (size : ℕ) → FftPlanConfig → (inverse : Bool) → ArmplState fftw
  scratch_state size cfg inverse = record {
    plan = none;
    type = cfg.type;
    inverse = inverse;
    n = cfg.length;
    batch = cfg.batch;
    has_in = fftw.granted 0 (mul_size size (in_scratch cfg.type cfg.length cfg.batch));
    has_out = fftw.granted 1 (mul_size size (out_scratch cfg.type cfg.length cfg.batch));
  }

  abbrev pub with_scratch : ArmplState fftw → Live → Live
  with_scratch s l = record l { blocks = l.blocks + count s.has_in + count s.has_out }

  abbrev pub plan_of : (size : ℕ) → FftPlanConfig → ArmplState fftw → BackendPlan (Machine Float)
  plan_of size cfg s = record {
    State = ArmplState fftw;
    state = s;
    execute = armpl_execute fftw;
    destroy = armpl_destroy fftw;
    workspace_bytes = mul_size size (
        add_size (in_scratch cfg.type cfg.length cfg.batch)
          (out_scratch cfg.type cfg.length cfg.batch));
    name = "armpl";
  }

  -- `make_typed<Real>`, with what is live after it
  unfoldable pub make_typed :
      (size : ℕ)
      → FftPlanConfig
      → (inverse : Bool) → Live
      → Result (BackendPlan (Machine Float)) × Live
  make_typed size cfg inverse l =
      let s = scratch_state size cfg inverse in
      let l' = with_scratch s l in
      if not s.has_in || not s.has_out
      then (of_status Status.backend_error, release fftw s l')
      else elim (make_plan cfg.type inverse cfg.length cfg.batch) [
        | none ↦ (of_status Status.backend_error, release fftw s l')
        | some q ↦ (
          of_value (plan_of size cfg (record s { plan = some q })),
          record l' { plans = suc l'.plans },
        )
      ]

-- `make_backend_plan`, over the library at each precision
unfoldable pub make_backend_plan :
    (fftw : FftPrecision → Fftw) (cfg : FftPlanConfig)
    → Live
    → Result (BackendPlan (Machine (fftw cfg.precision).Float)) × Live
make_backend_plan fftw cfg l =
    if is_empty cfg
    then (of_status Status.invalid_argument, l)
    else elim (resolve cfg.type cfg.direction).value [
      | none ↦ (of_status (resolve cfg.type cfg.direction).status, l)
      | some inverse ↦ make_typed (fftw cfg.precision) (real_size cfg.precision) cfg inverse l
    ]
