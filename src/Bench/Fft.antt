-- ===== src/Bench/Fft.antt =====
-- bench/bench_fft.cpp: the run that a benchmark measures. A child proves what it computes.
pub mod Last
pub mod Creations
pub mod Main
mod Tests
use dsp_dispatch.Base.{
  ℕ, ◌+◌, ◌*◌, ◌%◌, Bool, true, false, Option, none, some, String, store, for_range,
}
use dsp_dispatch.Fft.Types.{FftType, FftPrecision, FftDirection, FftPlanConfig, Result}
use dsp_dispatch.Fft.Plan.{BackendPlan, FftPlan, create, execute, destroy}
use dsp_dispatch.Fir.Session.{View}

-- The configuration of a run; the batch and the direction are the defaults.
abbrev pub config : (n : ℕ) → FftPlanConfig
config n = record {
  type = FftType.complex;
  precision = FftPrecision.f32;
  length = n;
  batch = 1;
  direction = FftDirection.forward;
}

-- What a loop of calls changes.
pub record Work (M : Type 0) : Type 1 where
  pub plan : FftPlan M
  pub machine : M

-- a call whose status nobody reads
unfoldable pub call : {M : Type 0} → (input output : ℕ) → Work M → Work M
call input output w =
    let (st, p, m) = execute w.plan (some input) (some output) w.machine in
    record { plan = p; machine = m }

-- What the run reports, and the machine when the loop is over and when the plan is gone.
pub record Report (M : Type 0) : Type 0 where
  pub skipped : Bool
  pub items : ℕ
  pub label : String
  pub looped : M
  pub left : M

-- Over the difference of two numbers below 8 as a `float`.
module _ {M A : Type 0} (view : View M A) (difference : ℕ → ℕ → A) where
  -- `float(i % 7) - 3.f` and `float(i % 5) - 2.f`
  abbrev pub real_at : ℕ → A
  real_at i = difference (i % 7) 3

  abbrev pub imaginary_at : ℕ → A
  imaginary_at i = difference (i % 5) 2

  -- The loop that fills the input, of complex values.
  unfoldable pub fill : (n input : ℕ) → M → M
  fill n input m =
      for_range n 0
        (λ i m.
          view.with_cells
            (store (store (view.cells m) (input + 2 * i) (real_at i)) (input + 2 * i + 1)
              (imaginary_at i))
            m)
        m

  -- What `run_execute` does with its plan: it warms up, and is measured.
  unfoldable pub measure : (n input output iterations : ℕ) → FftPlan M → M → Work M
  measure n input output iterations p m =
      let warm =
        for_range 8 0 (λ i. call input output) (record { plan = p; machine = fill n input m }) in
      for_range iterations 0 (λ i. call input output) warm

  -- `run_execute`, over a backend. (A creation that succeeds has its plan.)
  unfoldable pub run_execute :
      (make_backend_plan : FftPlanConfig → Result (BackendPlan M)) (n input output iterations : ℕ)
      → M
      → Report M
  run_execute make_backend_plan n input output iterations m =
      elim (create (make_backend_plan (config n))).value [
        | none ↦ record { skipped = true; items = 0; label = ""; looped = m; left = m }
        | some p ↦
            let w = measure n input output iterations p m in
            record {
              skipped = false;
              items = iterations;
              label = w.plan.backend_name;
              looped = w.machine;
              left = destroy w.plan w.machine;
            }
      ]

-- The end of the lifetime of a result, with the plan that it may have.
abbrev pub dropped : {M : Type 0} → Option (FftPlan M) → M → M
dropped none m = m
dropped (some p) m = destroy p m

-- `run_plan_create`: as many creations, of which each plan is destroyed at the end of its round. What
-- creation does to the machine is the backend's.
unfoldable pub run_plan_create :
    {M : FftPlanConfig → Type 0}
    (make_backend_plan : (cfg : FftPlanConfig) → M cfg → Result (BackendPlan (M cfg)) × M cfg)
    (n iterations : ℕ)
    → M (config n)
    → M (config n)
run_plan_create make_backend_plan n iterations m =
    for_range iterations 0
      (λ i m.
        let (backend, m') = make_backend_plan (config n) m in dropped (create backend).value m')
      m
