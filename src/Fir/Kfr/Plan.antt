-- ===== src/Fir/Kfr/Plan.antt =====
-- The KFR backend behind the public interface: its plans serve the streams of their channels.
use dsp_dispatch.Base.{
  ℕ, ◌*◌, ◌<◌, ◌≡◌, refl, arith, for_range_inv, size_mod, Disjoint, List, some, false, Memory,
  Vector,
}
use dsp_dispatch.Base.Cpp.{CppType, Numbers}
use dsp_dispatch.Fir.Types.{
  FirPrecision, FirType, FirPlanConfig, TapMemory, invalid_common, of_value,
}
use dsp_dispatch.Fir.Plan.{FirPlan, fir_plan, create}
use dsp_dispatch.Fir.Session.{plain, Carries, IsStreaming, AnswersAnew, IsStreaming-AnswersAnew}
use dsp_dispatch.Fir.Bank.{Filter}
use dsp_dispatch.Fir.Bank.Stream.{IsFiltering, Has, new-Has, run_bank_count-Has, reset_bank-Has}
use dsp_dispatch.Fir.Kfr.{
  copied_taps, new_state, kfr_real_execute, kfr_real_clear, plan_of, make_backend_plan,
}

module _ (num : Numbers) (kfr : Filter (num.Value CppType.float) (num.Value CppType.float)) where
  open num use {Value}

  record IsCopied (count : ℕ) (taps : ℕ → Value CppType.float) (k : ℕ)
      (v : Vector (Value CppType.float)) : Type 0 where
    size : v.size ≡ count
    copied : (i : ℕ) → i < k → v.at i ≡ taps i

  copied_taps-IsCopied :
      (count : ℕ) (taps : ℕ → Value CppType.float)
      → IsCopied count taps count (copied_taps num kfr count taps)
  unfolding copied_taps
  copied_taps-IsCopied count taps =
      for_range_inv (IsCopied count taps) _ count count 0 _ (omega arith)
        (λ k v lo hk d. record { size = d.size; copied = λ i hi. ground (arith, d.copied i) })
        (record { size = refl; copied = λ i h. absurd (omega arith) })

  module _ (cfg : FirPlanConfig num) (h : TapMemory num) (accepted : invalid_common num cfg ≡ false)
      (given : cfg.taps ≡ some h) (real : cfg.type ≡ FirType.real)
      (single : cfg.precision ≡ FirPrecision.f32)
      (y : (ℕ → Value CppType.float) → ℕ → Value CppType.float)
      (documented : (taps : ℕ → Value CppType.float)
        → ((k : ℕ) → k < cfg.tap_count → taps k ≡ h CppType.float k)
        → IsFiltering kfr taps cfg.tap_count cfg.block_size y) where
    abbrev plan : FirPlan (Memory (Value CppType.float))
    plan = fir_plan (plan_of num kfr cfg (new_state num kfr cfg h))

    create-plan : create (make_backend_plan num kfr cfg) ≡ of_value plan
    unfolding create make_backend_plan
    create-plan = simp (accepted, given, real, single)

    abbrev taps : Vector (Value CppType.float)
    taps = copied_taps num kfr cfg.tap_count (h CppType.float)

    abbrev copied : IsCopied cfg.tap_count (h CppType.float) cfg.tap_count taps
    copied = copied_taps-IsCopied cfg.tap_count (h CppType.float)

    abbrev filtering : IsFiltering kfr taps.at cfg.tap_count cfg.block_size y
    filtering = documented taps.at copied.copied

    module _ (input output : ℕ) (fits : cfg.batch * cfg.block_size < size_mod)
        (apart : Disjoint input
          (cfg.batch * cfg.block_size)
          output
          (cfg.batch * cfg.block_size)) where
      plan-IsStreaming :
          IsStreaming plain plan cfg.batch cfg.block_size input output (λ x b. y (x b))
      unfolding new_state kfr_real_execute kfr_real_clear
      plan-IsStreaming = record {
        Has = Has kfr taps.at cfg.tap_count cfg.block_size cfg.batch y filtering;
        start = λ x.
            rw copied.size
              (new-Has kfr taps.at cfg.tap_count cfg.block_size cfg.batch y filtering x);
        step = λ x s n mem has fed.
            let (answered, has') =
              run_bank_count-Has kfr taps.at cfg.tap_count cfg.block_size cfg.batch y filtering
                input output fits apart x n s has s.block_size mem has.block_size fed in
            (refl, answered, has');
        restart = λ x x' s n has. (
          refl,
          reset_bank-Has kfr taps.at cfg.tap_count cfg.block_size cfg.batch y filtering x x' s n
              has,
        );
      }

      -- Over a library that filters as KFR documents, from the taps that it is given, a valid
      -- configuration of type `Real` and F32, with buffers that do not overlap and fit in the address
      -- space, yields a plan; every session with it is answered with success and the filtered
      -- signals, across the borders of blocks, and after `clear` the same holds of the signals that
      -- begin then.
      pub kfr_real-Answers :
          (x x' : ℕ → ℕ → Value CppType.float) (us vs : List (ℕ → Value CppType.float))
          (mem mem' : Memory (Value CppType.float))
          → Carries cfg.batch cfg.block_size x 0 us
          → Carries cfg.batch cfg.block_size x' 0 vs
          → (p : FirPlan (Memory (Value CppType.float))) × (create (make_backend_plan num kfr cfg)
              ≡ of_value p)
            × AnswersAnew plain p cfg.batch cfg.block_size input output
                (λ b. y (x b))
                (λ b. y (x' b))
                us
                vs
                mem
                mem'
      kfr_real-Answers x x' us vs mem mem' carried carried' = (
        plan,
        create-plan,
        IsStreaming-AnswersAnew plan-IsStreaming x x' us vs mem mem' carried carried',
      )
