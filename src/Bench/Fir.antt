-- ===== src/Bench/Fir.antt =====
-- bench/bench_fir.cpp: the run that a benchmark measures. A child proves what it computes.
pub mod Fresh
pub mod Creations
pub mod Main
mod Tests
use dsp_dispatch.Base.{
  ℕ, ◌-◌, ◌+◌, ◌*◌, ◌%◌, if◌then◌else◌, ltb, Bool, true, false, Option, none, some, Vector, String,
  store, assign, for_range,
}
use dsp_dispatch.Base.Int.{ℤ, pos, negsuc}
use dsp_dispatch.Base.Cpp.{CppType, Numbers}
use dsp_dispatch.Fir.Types.{FirType, FirPrecision, FirPlanConfig, TapMemory, Result}
use dsp_dispatch.Fir.Plan.{BackendPlan, FirPlan, create, execute, clear, destroy}
use dsp_dispatch.Fir.Session.{View}

-- `make_taps`, over 1 divided by a count, and the configuration of a run
module _ (num : Numbers) (inverse_of : ℕ → num.Value CppType.float) where
  open num use {Value}

  unfoldable pub make_taps : (tap_count : ℕ) → Vector (Value CppType.float)
  make_taps tap_count =
      for_range tap_count 0 (λ i v. record v { at = store v.at i (inverse_of tap_count) })
        (assign tap_count (num.zero CppType.float))

  -- What `taps.data()` points to. It is read as `float` only.
  abbrev pub data_of : Vector (Value CppType.float) → TapMemory num
  data_of v CppType.float = v.at
  data_of v CppType.double = λ _. num.zero CppType.double
  data_of v CppType.complex_float = λ _. num.zero CppType.complex_float
  data_of v CppType.complex_double = λ _. num.zero CppType.complex_double

  abbrev pub config : (block_size tap_count : ℕ) → FirPlanConfig num
  config block_size tap_count = record {
    type = FirType.real;
    precision = FirPrecision.f32;
    taps = some (data_of (make_taps tap_count));
    tap_count = (make_taps tap_count).size;
    block_size = block_size;
    batch = 1;
  }

-- `int(i % 17) - 8`
abbrev pub sawtooth : ℕ → ℤ
sawtooth i = if ltb (i % 17) 8 then negsuc (7 - i % 17) else pos (i % 17 - 8)

-- What a loop of calls changes.
pub record Work (M : Type 0) : Type 1 where
  pub plan : FirPlan M
  pub machine : M

-- a call whose status nobody reads
unfoldable pub call : {M : Type 0} → (input output : ℕ) → Work M → Work M
call input output w =
    let (st, p, m) = execute w.plan (some input) (some output) w.machine in
    record { plan = p; machine = m }

-- What the run reports, and the machine when the loop is over and when the plan is gone.
pub record Report (M : Type 0) : Type 0 where
  pub skipped : Bool
  pub items : ℕ
  pub label : String
  pub looped : M
  pub left : M

-- Over an `int` as a `float`.
module _ {M A : Type 0} (view : View M A) (float_of : ℤ → A) where
  -- The loop that fills the input.
  unfoldable pub fill : (block_size input : ℕ) → M → M
  fill block_size input m =
      for_range block_size 0
        (λ i m. view.with_cells (store (view.cells m) (input + i) (float_of (sawtooth i))) m) m

  -- What `run_execute` does with its plan: it warms up, clears, and is measured.
  unfoldable pub measure : (block_size input output iterations : ℕ) → FirPlan M → M → Work M
  measure block_size input output iterations p m =
      let warm =
        for_range 8 0 (λ i. call input output)
          (record { plan = p; machine = fill block_size input m }) in
      let (st, q) = clear warm.plan in
      for_range iterations 0 (λ i. call input output) (record warm { plan = q })

-- `run_execute`, over a backend. (A creation that succeeds has its plan.)
unfoldable pub run_execute :
    (num : Numbers) (inverse_of : ℕ → num.Value CppType.float)
    (float_of : ℤ → num.Value CppType.float) {M : Type 0} (view : View M (num.Value CppType.float))
    (make_backend_plan : FirPlanConfig num → Result (BackendPlan M))
    (block_size tap_count input output iterations : ℕ)
    → M
    → Report M
run_execute num inverse_of float_of view make_backend_plan block_size tap_count input output
      iterations m =
    elim (create (make_backend_plan (config num inverse_of block_size tap_count))).value [
      | none ↦ record { skipped = true; items = 0; label = ""; looped = m; left = m }
      | some p ↦
          let w = measure view float_of block_size input output iterations p m in
          record {
            skipped = false;
            items = iterations * block_size;
            label = w.plan.backend_name;
            looped = w.machine;
            left = destroy w.plan w.machine;
          }
    ]

-- The end of the lifetime of a result, with the plan that it may have.
abbrev pub dropped : {M : Type 0} → Option (FirPlan M) → M → M
dropped none m = m
dropped (some p) m = destroy p m

-- `run_plan_create`: as many creations, of which each plan is destroyed at the end of its round. What
-- creation does to the machine is the backend's.
unfoldable pub run_plan_create :
    (num : Numbers) (inverse_of : ℕ → num.Value CppType.float) {M : FirPlanConfig num → Type 0}
    (make_backend_plan : (cfg : FirPlanConfig num) → M cfg → Result (BackendPlan (M cfg)) × M cfg)
    (block_size tap_count iterations : ℕ)
    → M (config num inverse_of block_size tap_count)
    → M (config num inverse_of block_size tap_count)
run_plan_create num inverse_of make_backend_plan block_size tap_count iterations m =
    let cfg = config num inverse_of block_size tap_count in
    for_range iterations 0
      (λ i m. let (backend, m') = make_backend_plan cfg m in dropped (create backend).value m') m
