-- ===== src/Bench/Fir/Fresh.antt =====
-- What a measured run computes: the calls that warm up leave no trace in it.
use mathlib.Core.Path.{subst}
use native.Mathlib.Nat.{mul-add-mod_self_right, mod-eq_of_lt}
use dsp_dispatch.Base.{
  ℕ, suc, ◌+◌, ◌*◌, ◌%◌, ◌<◌, ◌≡◌, refl, sym, ◌∙◌, arith, for_range, for_range_inv, false,
  store_self, store_ne, lt-suc_cases, inl, inr,
}
use dsp_dispatch.Base.Int.{ℤ}
use dsp_dispatch.Base.Cpp.{CppType, Numbers}
use dsp_dispatch.Fir.Types.{FirPlanConfig, Result, of_value}
use dsp_dispatch.Fir.Response.{BlockOf}
use dsp_dispatch.Fir.Plan.{BackendPlan, FirPlan, create, execute, clear}
use dsp_dispatch.Fir.Session.{View, IsStreaming}
use dsp_dispatch.Bench.Fir.{config, sawtooth, Work, call, fill, measure, run_execute}

-- The input of the runs: the same block over and over.
abbrev pub repeated : {A : Type 0} → (ℤ → A) → (block : ℕ) → ℕ → ℕ → A
repeated float_of block b n = float_of (sawtooth (n % block))

module _ {M A : Type 0} (view : View M A) (float_of : ℤ → A) where
  abbrev pub Filled : (block input : ℕ) → M → Type 0
  Filled block input m = (j : ℕ) → j < block → view.cells m (input + j) ≡ float_of (sawtooth j)

  fill-Filled : (block input : ℕ) (m : M) → Filled block input (fill view float_of block input m)
  unfolding fill
  fill-Filled block input m =
      for_range_inv
        (λ k (v : M). (j : ℕ) → j < k → view.cells v (input + j) ≡ float_of (sawtooth j)) _ block
        block 0 m (omega arith)
        (λ k v lo hk d j hj. rw view.cells-with_cells (elim (lt-suc_cases j k hj) [
          | inl before ↦
              store_ne (view.cells v) (input + k) (input + j) _ (omega arith) ∙ d j before
          | inr same ↦ rw same (store_self (view.cells v) (input + k) _)
        ]))
        (λ j h. absurd (omega arith))

  Filled-BlockOf :
      (block input k : ℕ) (m : M)
      → Filled block input m
      → BlockOf 1 block (repeated float_of block) (k * block) (λ j. view.cells m (input + j))
  Filled-BlockOf block input k m filled b i hb hi =
      rw (mul-add-mod_self_right k block i, mod-eq_of_lt hi)
        (let first : b ≡ 0 = omega arith in
          let same : b * block + i ≡ i = rw first (omega arith) in rw same (filled i hi))

  module _ (p : FirPlan M) (block input output : ℕ) (y : (ℕ → ℕ → A) → ℕ → ℕ → A)
      (streaming : IsStreaming view p 1 block input output y)
      (apart : (s : p.State) (n : ℕ) (m : M) (j : ℕ)
        → streaming.Has (repeated float_of block) s n
        → j < block
        → view.cells (p.run s input output m).2 (input + j) ≡ view.cells m (input + j)) where
    abbrev x : ℕ → ℕ → A
    x = repeated float_of block

    -- The blocks since the last reset.
    pub record IsAfter (k : ℕ) (w : Work M) : Type 1 where
      pub state : p.State
      pub same : w.plan ≡ record p { state = state }
      pub has : streaming.Has x state (k * block)
      pub filled : Filled block input w.machine

    -- What the last call wrote.
    abbrev Wrote : ℕ → Work M → Type 0
    Wrote k w = BlockOf 1 block (y x) (k * block) (λ j. view.cells w.machine (output + j))

    abbrev Next : ℕ → M → FirPlan M → Type 1
    Next k m q =
        let w = call input output (record { plan = q; machine = m }) in
        IsAfter (suc k) w × Wrote k w

    call-IsAfter :
        (k : ℕ) (w : Work M)
        → IsAfter k w
        → IsAfter (suc k) (call input output w) × Wrote k (call input output w)
    unfolding call execute
    call-IsAfter k w d = subst (Next k w.machine) (sym d.same) (
        let (served, wrote, has) =
          streaming.step x d.state (k * block) w.machine d.has
            (Filled-BlockOf block input k w.machine d.filled) in
        (
          record {
            state = (p.run d.state input output w.machine).1;
            same = refl;
            has =
                subst (λ n. streaming.Has x (p.run d.state input output w.machine).1 n)
                  (omega arith) has;
            filled = λ j hj. apart d.state (k * block) w.machine j d.has hj ∙ d.filled j hj;
          },
          wrote,
        ))

    -- What a loop of calls has done, and what the last of them wrote.
    abbrev After : ℕ → Work M → Type 1
    After k w = IsAfter k w × ((j : ℕ) → k ≡ suc j → Wrote j w)

    calls-After :
        (k : ℕ) (w : Work M) → IsAfter 0 w → After k (for_range k 0 (λ i. call input output) w)
    calls-After k w d =
        for_range_inv After (λ i. call input output) k k 0 w (omega arith)
          (λ i v lo hi after.
            let (next, wrote) = call-IsAfter i v after.0 in
            (next, λ j e. subst (λ n. Wrote n (call input output v)) (omega arith) wrote))
          (d, λ j e. absurd (omega arith))

    abbrev Cleared : M → FirPlan M → Type 1
    Cleared m q = IsAfter 0 (record { plan = (clear q).1; machine = m })

    clear-IsAfter :
        (k : ℕ) (w : Work M) → IsAfter k w → IsAfter 0 (record w { plan = (clear w.plan).1 })
    unfolding clear
    clear-IsAfter k w d = subst (Cleared w.machine) (sym d.same) (record {
      state = (p.reset d.state).1;
      same = refl;
      has =
          subst (λ n. streaming.Has x (p.reset d.state).1 n) (omega arith)
            (streaming.restart x x d.state (k * block) d.has).1;
      filled = d.filled;
    })

    started : (m : M) → IsAfter 0 (record { plan = p; machine = fill view float_of block input m })
    started m = record {
      state = p.state;
      same = refl;
      has = subst (λ n. streaming.Has x p.state n) (omega arith) (streaming.start x);
      filled = fill-Filled block input m;
    }

    -- What the last of the measured calls wrote.
    pub measure-Wrote :
        (iterations : ℕ) (m : M)
        → Wrote iterations (measure view float_of block input output (suc iterations) p m)
    unfolding measure
    measure-Wrote iterations m =
        (calls-After (suc iterations) _ (clear-IsAfter 8 _ (calls-After 8 _ (started m)).0)).1
          iterations refl

-- Over a backend with a streaming plan for the configuration, whose calls leave the input buffer as
-- it is in the states that have processed the repeated input, a run of one measured call or more is not skipped, and the last of its calls gives the
-- filtered signal of the repeated input, from the start of the measurement on: the calls that warm up
-- do not show in it.
pub run_execute-fresh :
    (num : Numbers) (inverse_of : ℕ → num.Value CppType.float)
    (float_of : ℤ → num.Value CppType.float) {M : Type 0} (view : View M (num.Value CppType.float))
    (make_backend_plan : FirPlanConfig num → Result (BackendPlan M))
    (block taps input output iterations : ℕ) (p : FirPlan M)
    → create (make_backend_plan (config num inverse_of block taps)) ≡ of_value p
    → (y : (ℕ → ℕ → num.Value CppType.float) → ℕ → ℕ → num.Value CppType.float)
    → (streaming : IsStreaming view p 1 block input output y)
    → ((s : p.State) (n : ℕ) (m : M) (j : ℕ)
        → streaming.Has (repeated float_of block) s n
        → j < block
        → view.cells (p.run s input output m).2 (input + j) ≡ view.cells m (input + j))
    → (m : M)
    → let report =
        run_execute num inverse_of float_of view make_backend_plan block taps input output
          (suc iterations)
          m in
      (report.skipped ≡ false)
      × BlockOf 1 block
          (y (repeated float_of block))
          (iterations * block)
          (λ j. view.cells report.looped (output + j))
unfolding run_execute
run_execute-fresh num inverse_of float_of view make_backend_plan block taps input output iterations
      p made y streaming apart m =
    rw (made, run_execute)
      (refl, measure-Wrote view float_of p block input output y streaming apart iterations m)
