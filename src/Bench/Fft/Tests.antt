-- ===== src/Bench/Fft/Tests.antt =====
-- A run of the FFT benchmarks, over a backend whose transforms add the first two scalars of the input
-- to an index, and that it serves as the runs ask for.
use dsp_dispatch.Base.{ℕ, suc, ◌+◌, ◌-◌, ◌≡◌, refl, arith, Memory, copy, for_range}
use dsp_dispatch.Fft.Types.{Status, of_value}
use dsp_dispatch.Fft.Plan.{BackendPlan, fft_plan, create}
use dsp_dispatch.Fir.Session.{plain}
use dsp_dispatch.Fft.Plan
use dsp_dispatch.Bench.Fft.{run_execute, measure, call, fill}
use dsp_dispatch.Bench.Fft.Last.{IsServing}

-- 8 more
abbrev difference : ℕ → ℕ → ℕ
difference a b = 8 + a - b

abbrev adding : BackendPlan (Memory ℕ)
adding = record {
  State = ℕ;
  state = 0;
  execute = λ s input output mem.
      (Status.ok, suc s, copy 4 (λ j. mem input + mem (input + 1) + j) output mem);
  destroy = λ s mem. mem;
  workspace_bytes = 0;
  name = "adding";
}

-- 5 and 6 are the first two scalars of the input
adding-IsServing : IsServing plain difference (fft_plan adding) 2 0 4 (λ j. 11 + j)
adding-IsServing = record {
  Ready = λ s. Unit {0};
  start = tt;
  step = λ s m ready filled. (
    tt,
    (λ i hi. (ground (arith, (filled i hi).0), ground (arith, (filled i hi).1))),
    (λ j hj. ground (arith, (filled 0 (omega arith)).0, (filled 0 (omega arith)).1)),
  );
}

-- Two measured calls, on 5 and 6 in front.
adding_run :
    let report = run_execute plain difference (λ cfg. of_value adding) 2 0 4 2 (λ a. 0) in
    (report.items ≡ 2) × (report.looped 4 ≡ 11) × (report.looped 5 ≡ 12)
unfolding run_execute measure call create Plan.execute fill for_range
adding_run = (refl, refl, refl)
