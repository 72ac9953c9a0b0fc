-- ===== src/Fft/Cmsis/Create.antt =====
-- `make_backend_plan` of the CMSIS FFT behind `FftPlan::create`.
use dsp_dispatch.Base.{ℕ, ltb, if◌then◌else◌, ◌≡◌, arith, Bool}
use dsp_dispatch.Fft.Types.{Status, FftType, FftPrecision, FftPlanConfig, is_empty}
use dsp_dispatch.Fft.Direction.{contradicts}
use dsp_dispatch.Fft.Plan.{create}
use dsp_dispatch.Fft.Cmsis.{ArmMath, make_backend_plan}

module _ (arm : ArmMath) where
  -- Whether CMSIS has a table for the length.
  abbrev has_table : FftType → ℕ → Bool
  has_table FftType.complex n = (arm.cfft_init n).0
  has_table _ n = (arm.rfft_init n).0

  abbrev expected : FftPlanConfig → Status
  expected cfg = if is_empty cfg then Status.invalid_argument else elim cfg.precision [
    | FftPrecision.f64 ↦ Status.unsupported_config
    | FftPrecision.f32 ↦
        if contradicts cfg.type cfg.direction
        then Status.invalid_argument
        else if ltb cfg.length 65536
        then (if has_table cfg.type cfg.length then Status.ok else Status.unsupported_length)
        else Status.unsupported_length
  ]

  -- Creation gives, on every configuration: InvalidArgument where the length or the batch is 0; else
  -- UnsupportedConfig for F64; else InvalidArgument where the type contradicts the direction; else
  -- UnsupportedLength for lengths above 65535 and for those that CMSIS has no table for; else Ok.
  pub cmsis-create_status :
      (cfg : FftPlanConfig) → (create (make_backend_plan arm cfg)).status ≡ expected cfg
  unfolding create make_backend_plan
  cmsis-create_status cfg = ground arith
