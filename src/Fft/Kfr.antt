-- ===== src/Fft/Kfr.antt =====
-- bench/backends/kfr/kfr_backend.cpp, the FFT over KFR that the benchmarks compare with. Children
-- prove its properties.
pub mod Execute
pub mod Plan
mod Tests
use dsp_dispatch.Base.{
  ℕ, ◌+◌, ◌*◌, Bool, true, false, if◌then◌else◌, mul_size, Memory, copy, for_range,
}
use dsp_dispatch.Fft.Types.{
  Status, FftType, FftPrecision, FftPlanConfig, Result, of_value, of_status, is_empty, is_inverse,
}
use dsp_dispatch.Fft.Scale.{scale_complex}
use dsp_dispatch.Fft.Plan.{BackendPlan}

-- The arithmetic of `T` that the backend does, and what it calls of kfr/dft.hpp: a plan for a length,
-- the bytes of its scratch buffer, a buffer of so many bytes, and a run of the plan on one transform,
-- from the row, the buffer, and whether it is inverse, which gives the row of the result and what it
-- leaves in the buffer.
pub record KfrLibrary : Type 1 where
  pub Float : Type 0
  pub one : Float
  pub div : Float → Float → Float
  pub mul : Float → Float → Float
  pub of_size : ℕ → Float
  pub Plan : Type 0
  pub Temp : Type 0
  pub dft_plan : ℕ → Plan
  pub temp_size : Plan → ℕ
  pub temp : ℕ → Temp
  pub execute : Plan → (ℕ → Float) → Temp → (inverse : Bool) → (ℕ → Float) × Temp

module _ (kfr : KfrLibrary) where
  open kfr use {Float}

  -- `KfrState<T>`
  pub record KfrState : Type 0 where
    pub n : ℕ
    pub batch : ℕ
    pub inverse : Bool
    pub plan : kfr.Plan
    pub temp : kfr.Temp
    pub temp_size : ℕ

  -- What a round of the loop changes.
  pub record Work : Type 0 where
    pub temp : kfr.Temp
    pub memory : Memory Float

  -- its constructor
  unfoldable pub new_state : (n batch : ℕ) (inverse : Bool) → KfrState
  new_state n batch inverse =
      let plan = kfr.dft_plan n in
      record {
        n = n;
        batch = batch;
        inverse = inverse;
        plan = plan;
        temp = kfr.temp (kfr.temp_size plan);
        temp_size = kfr.temp_size plan;
      }

  -- a round of the loop of `kfr_execute`
  unfoldable pub transform : KfrState → (input output b : ℕ) → Work → Work
  transform s input output b w =
      let bin = input + 2 * mul_size b s.n in
      let bout = output + 2 * mul_size b s.n in
      let (row, left) = kfr.execute s.plan (λ i. w.memory (bin + i)) w.temp s.inverse in
      let ran = copy (2 * s.n) row bout w.memory in
      record {
        temp = left;
        memory =
            if s.inverse
            then for_range s.n 0 (scale_complex kfr.mul (kfr.div kfr.one (kfr.of_size s.n)) bout)
                ran
            else ran;
      }

  unfoldable pub kfr_execute :
      KfrState → (input output : ℕ) → Memory Float → Status × KfrState × Memory Float
  kfr_execute s input output mem =
      let w =
        for_range s.batch 0 (transform s input output) (record { temp = s.temp; memory = mem }) in
      (Status.ok, record s { temp = w.temp }, w.memory)

  -- `kfr_destroy`. It frees the state, which no caller's buffer is part of.
  unfoldable pub kfr_destroy : KfrState → Memory Float → Memory Float
  kfr_destroy s mem = mem

  abbrev pub plan_of : KfrState → BackendPlan (Memory Float)
  plan_of s = record {
    State = KfrState;
    state = s;
    execute = kfr_execute;
    destroy = kfr_destroy;
    workspace_bytes = s.temp_size;
    name = "kfr";
  }

  -- `make_typed<T>`
  unfoldable pub make_typed : FftPlanConfig → (inverse : Bool) → BackendPlan (Memory Float)
  make_typed cfg inverse = plan_of (new_state cfg.length cfg.batch inverse)

-- `cfg.type == FftType::Complex`
abbrev pub is_complex : FftType → Bool
is_complex FftType.complex = true
is_complex _ = false

-- `make_backend_plan`, over the library at each precision
unfoldable pub make_backend_plan :
    (kfr : FftPrecision → KfrLibrary) (cfg : FftPlanConfig)
    → Result (BackendPlan (Memory (kfr cfg.precision).Float))
make_backend_plan kfr cfg =
    if is_empty cfg
    then of_status Status.invalid_argument
    else if is_complex cfg.type
    then of_value (make_typed (kfr cfg.precision) cfg (is_inverse cfg.direction))
    else of_status Status.unsupported_config
