-- ===== src/Fir/Cmsis/Create.antt =====
-- When the creation of a CMSIS-DSP plan succeeds.
use dsp_dispatch.Base.{◌^◌, ◌≡◌, arith, Bool, true, false, ltb, ◌&&◌, if◌then◌else◌}
use dsp_dispatch.Base.Cpp.{Numbers}
use dsp_dispatch.Fir.Types.{Status, FirPlanConfig, invalid_common, is_ok, is_null}
use dsp_dispatch.Fir.Plan.{create}
use dsp_dispatch.Fir.Cmsis.{ArmFirs, is_real, make_typed, make_backend_plan}

module _ {num : Numbers} (arms : ArmFirs num) (cfg : FirPlanConfig num) where
  -- A type with a kernel, and counts that fit where they are cast to.
  abbrev offered : Bool
  offered = is_real cfg.type && (ltb cfg.tap_count (2 ^ 16) && ltb cfg.block_size (2 ^ 32))

  abbrev pub expected : Status
  expected =
      if invalid_common num cfg
      then Status.invalid_argument
      else if offered
      then Status.ok
      else Status.unsupported_config

  -- Creation fails with InvalidArgument for null taps or a count of 0; else with UnsupportedConfig for
  -- complex types, for taps above the range of `uint16_t` and for blocks above that of `uint32_t`. It
  -- succeeds otherwise, and a plan is there exactly when it succeeds.
  pub cmsis_fir-create_status :
      ((create (make_backend_plan arms cfg)).status ≡ expected)
      × (is_null (create (make_backend_plan arms cfg)).value
          ≡ (if is_ok expected then false else true))
  unfolding create make_backend_plan make_typed invalid_common
  cmsis_fir-create_status = ground arith
