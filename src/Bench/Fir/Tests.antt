-- ===== src/Bench/Fir/Tests.antt =====
-- The theorem on the runs of the filter benchmarks, over a backend that gives back what it is given,
-- and fails where there are no taps.
use dsp_dispatch.Base.{
  ℕ, suc, ◌+◌, ◌-◌, ◌==◌, ◌≡◌, refl, arith, false, if◌then◌else◌, Memory, copy, for_range,
}
use dsp_dispatch.Base.Int.{ℤ, pos, negsuc}
use dsp_dispatch.Fir.Types.{Status, FirPlanConfig, Result, of_value, of_status, invalid_common}
use dsp_dispatch.Fir.Response.{BlockOf}
use dsp_dispatch.Fir.Plan.{BackendPlan, fir_plan, create, destroy}
use dsp_dispatch.Fir.Bank.{new_filters}
use dsp_dispatch.Fir.Liquid
use dsp_dispatch.Fir.Session.{plain, IsStreaming}
use dsp_dispatch.Fir.Examples.{counting, empty_memory}
use dsp_dispatch.Bench.Fir.{config, run_execute, make_taps, run_plan_create}
use dsp_dispatch.Bench.Fir.Creations.{make_counted}
use dsp_dispatch.Fir.Liquid.{Liquid}
use dsp_dispatch.Fir.Examples.{adding}
use dsp_dispatch.Bench.Fir.Fresh.{repeated, run_execute-fresh}

-- 8 more
abbrev float_of : ℤ → ℕ
float_of (pos n) = n + 8
float_of (negsuc n) = 8 - suc n

-- a state is what has been processed
abbrev echo : BackendPlan (Memory ℕ)
echo = record {
  State = ℕ;
  state = 0;
  execute = λ s input output mem. (Status.ok, s + 4, copy 4 (λ j. mem (input + j)) output mem);
  clear = λ s. (Status.ok, 0);
  destroy = λ s mem. mem;
  workspace_bytes = 0;
  name = "echo";
}

abbrev make_backend_plan : FirPlanConfig counting → Result (BackendPlan (Memory ℕ))
make_backend_plan cfg =
    if cfg.tap_count == 0 then of_status Status.invalid_argument else of_value echo

echo-IsStreaming : IsStreaming plain (fir_plan echo) 1 4 0 8 (λ x. x)
echo-IsStreaming = record {
  Has = λ x s n. s ≡ n;
  start = λ x. refl;
  step =
      λ x s n mem has fed. (refl, (λ b i hb hi. ground (arith, fed b i hb hi)), omega (arith, has));
  restart = λ x x' s n has. (refl, refl);
}

made : create (make_backend_plan (config counting (λ n. 1) 4 3)) ≡ of_value (fir_plan echo)
unfolding create make_taps for_range
made = refl

run_execute-fresh_example :
    let report =
      run_execute counting (λ n. 1) float_of plain make_backend_plan 4 3 0 8 2 empty_memory in
    (report.skipped ≡ false) × BlockOf 1 4 (repeated float_of 4) 4 (λ j. report.looped (8 + j))
run_execute-fresh_example =
    run_execute-fresh counting (λ n. 1) float_of plain make_backend_plan 4 3 0 8 1 (fir_plan echo)
      made (λ x. x) echo-IsStreaming (λ s n mem j has hj. ground arith) empty_memory

abbrev liquid : Liquid counting
liquid = record { rrrf = adding; crcf = adding; cccf = adding }

-- five rounds of creation
rounds_live :
    (run_plan_create counting
      (λ n. 1)
      (make_counted liquid)
      64
      8
      5
      (record { memory = empty_memory; live = 3 })).live
    ≡ 3
unfolding run_plan_create for_range create destroy Liquid.make_backend_plan Liquid.make_typed
    Liquid.liquid_destroy Liquid.new_state new_filters invalid_common make_taps
rounds_live = refl
