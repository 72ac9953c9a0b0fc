-- ===== src/Bench/Fft/Last.antt =====
-- What a measured run computes.
use mathlib.Core.Path.{subst}
use dsp_dispatch.Base.{
  ℕ, suc, ◌+◌, ◌*◌, ◌<◌, ◌≡◌, refl, sym, arith, for_range, for_range_inv, false, lt-suc_cases, inl,
  inr,
}
use dsp_dispatch.Fft.Types.{FftPlanConfig, Result, of_value}
use dsp_dispatch.Fft.Plan.{BackendPlan, FftPlan, create, execute}
use dsp_dispatch.Fir.Session.{View}
use dsp_dispatch.Bench.Fft.{config, Work, call, real_at, imaginary_at, fill, measure, run_execute}

module _ {M A : Type 0} (view : View M A) (difference : ℕ → ℕ → A) where
  -- The scalars of the input.
  abbrev pub Filled : (n input : ℕ) → M → Type 0
  Filled n input m =
      (i : ℕ)
      → i < n
      → (view.cells m (input + 2 * i) ≡ real_at view difference i)
        × (view.cells m (input + 2 * i + 1) ≡ imaginary_at view difference i)

  fill-Filled : (n input : ℕ) (m : M) → Filled n input (fill view difference n input m)
  unfolding fill
  fill-Filled n input m =
      for_range_inv (λ k v. Filled k input v) _ n n 0 m (omega arith)
        (λ k v lo hk d i hi. rw view.cells-with_cells (elim (lt-suc_cases i k hi) [
          | inl before ↦ (ground (arith, (d i before).0), ground (arith, (d i before).1))
          | inr same ↦ rw same (ground arith, ground arith)
        ]))
        (λ i h. absurd (omega arith))

  -- The scalars of the output.
  abbrev pub Holds : (n output : ℕ) → (ℕ → A) → M → Type 0
  Holds n output spectrum m = (j : ℕ) → j < 2 * n → view.cells m (output + j) ≡ spectrum j

  -- What a plan owes the run: from a state that is ready, a call on the input leaves the spectrum in
  -- the output, the input as it is, and a state that is ready.
  pub record IsServing (p : FftPlan M) (n input output : ℕ) (spectrum : ℕ → A) : Type 1 where
    pub Ready : p.State → Type 0
    pub start : Ready p.state
    pub step :
        (s : p.State) (m : M)
        → Ready s
        → Filled n input m
        → let (st, s', m') = p.run s input output m in
          Ready s' × Filled n input m' × Holds n output spectrum m'

  module _ (p : FftPlan M) (n input output : ℕ) (spectrum : ℕ → A)
      (serving : IsServing p n input output spectrum) where
    -- After some calls, and after one or more.
    pub record IsAfter (k : ℕ) (w : Work M) : Type 1 where
      pub state : p.State
      pub same : w.plan ≡ record p { state = state }
      pub ready : serving.Ready state
      pub filled : Filled n input w.machine
      pub holds : 0 < k → Holds n output spectrum w.machine

    abbrev Next : ℕ → M → FftPlan M → Type 1
    Next k m q = IsAfter (suc k) (call input output (record { plan = q; machine = m }))

    call-IsAfter : (k : ℕ) (w : Work M) → IsAfter k w → IsAfter (suc k) (call input output w)
    unfolding call execute
    call-IsAfter k w d = subst (Next k w.machine) (sym d.same) (
        let (ready, filled, holds) = serving.step d.state w.machine d.ready d.filled in
        record {
          state = (p.run d.state input output w.machine).1;
          same = refl;
          ready = ready;
          filled = filled;
          holds = λ h. holds;
        })

    calls-IsAfter :
        (k : ℕ) (w : Work M) → IsAfter 0 w → IsAfter k (for_range k 0 (λ i. call input output) w)
    calls-IsAfter k w d =
        for_range_inv IsAfter (λ i. call input output) k k 0 w (omega arith)
          (λ i v lo hi. call-IsAfter i v) d

    started : (m : M) → IsAfter 0 (record { plan = p; machine = fill view difference n input m })
    started m = record {
      state = p.state;
      same = refl;
      ready = serving.start;
      filled = fill-Filled n input m;
      holds = λ h. absurd (omega arith);
    }

    again : (k : ℕ) (w : Work M) → IsAfter k w → IsAfter 0 w
    again k w d = record {
      state = d.state;
      same = d.same;
      ready = d.ready;
      filled = d.filled;
      holds = λ h. absurd (omega arith);
    }

    measure-Holds :
        (iterations : ℕ) (m : M)
        → Holds n output spectrum
            (measure view difference n input output (suc iterations) p m).machine
    unfolding measure
    measure-Holds iterations m =
        (calls-IsAfter (suc iterations) _ (again 8 _ (calls-IsAfter 8 _ (started m)))).holds
          (omega arith)

  -- Over a backend with a plan for the configuration whose calls on the input leave its spectrum in
  -- the output and the input as it is, a run of one measured call or more is not skipped, counts the
  -- measured calls, and ends with the spectrum in the output.
  pub run_execute-last :
      (make_backend_plan : FftPlanConfig → Result (BackendPlan M)) (n input output iterations : ℕ)
      (p : FftPlan M)
      → create (make_backend_plan (config n)) ≡ of_value p
      → (spectrum : ℕ → A) → IsServing p n input output spectrum
      → (m : M)
      → let report =
          run_execute view difference make_backend_plan n input output (suc iterations) m in
        (report.skipped ≡ false)
        × (report.items ≡ suc iterations)
        × Holds n output spectrum report.looped
  unfolding run_execute
  run_execute-last make_backend_plan n input output iterations p made spectrum serving m =
      rw (made, run_execute)
        (refl, refl, measure-Holds p n input output spectrum serving iterations m)
