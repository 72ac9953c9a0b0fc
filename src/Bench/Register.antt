-- ===== src/Bench/Register.antt =====
-- What bench/bench_fir.cpp and bench/bench_fft.cpp ask of Google Benchmark for a benchmark: its name,
-- its run and its settings.
use dsp_dispatch.Base.{ℕ, Bool, true, false, List, [], ◌∷◌}
use dsp_dispatch.Base.Decimal.{codes}
use dsp_dispatch.Bench.Percentile.{Doubles, stat_p95, stat_p99}

pub data TimeUnit : Type 0 where
  nanosecond microsecond : TimeUnit

-- With `R` for the runs, whose closures hold the sizes. No repetitions are asked for where they are 0.
pub record Registration (doubles : Doubles) (R : Type 0) : Type 0 where
  pub name : List ℕ
  pub run : R
  pub unit : TimeUnit
  pub repetitions : ℕ
  pub aggregates_only : Bool
  pub statistics : List (List ℕ × (List doubles.Double → doubles.Double))

module _ (doubles : Doubles) {R : Type 0} where
  -- `RegisterBenchmark`, before any setting
  abbrev register_benchmark : List ℕ → R → Registration doubles R
  register_benchmark name run = record {
    name = name;
    run = run;
    unit = TimeUnit.nanosecond;
    repetitions = 0;
    aggregates_only = false;
    statistics = [];
  }

  -- The settings of the benchmarks of execution.
  abbrev pub register_execute : List ℕ → R → Registration doubles R
  register_execute name run = record (register_benchmark name run) {
    unit = TimeUnit.microsecond;
    repetitions = 15;
    aggregates_only = true;
    statistics = (codes "p95", stat_p95 doubles) ∷ (codes "p99", stat_p99 doubles) ∷ [];
  }

  -- The settings of the benchmarks of creation.
  abbrev pub register_plan_create : List ℕ → R → Registration doubles R
  register_plan_create name run = record (register_benchmark name run) {
    unit = TimeUnit.microsecond;
  }
