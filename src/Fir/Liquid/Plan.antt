-- ===== src/Fir/Liquid/Plan.antt =====
-- The liquid-dsp backend behind the public interface: its plans serve the streams of their channels.
use dsp_dispatch.Base.{
  mul_size, ℕ, ◌*◌, ◌^◌, ◌<◌, ◌≡◌, refl, arith, size_mod, Disjoint, List, some, false,
}
use dsp_dispatch.Base.Machine.{Machine}
use dsp_dispatch.Base.Int.{to_uint, to_uint_lem}
use dsp_dispatch.Base.Cpp.{Numbers, size_of}
use dsp_dispatch.Fir.Types.{FirPrecision, FirPlanConfig, TapMemory, invalid_common, of_value}
use dsp_dispatch.Fir.Plan.{FirPlan, fir_plan, create}
use dsp_dispatch.Fir.Session.{counted, Carries, IsStreaming, AnswersAnew, IsStreaming-AnswersAnew}
use dsp_dispatch.Fir.Bank.{Filter}
use dsp_dispatch.Fir.Bank.Stream.{IsFiltering, Has, new-Has, run_bank_count-Has, reset_bank-Has}
use dsp_dispatch.Fir.Liquid.{
  Liquid, sample_of, tap_of, filter_of, new_state, liquid_execute, liquid_clear, plan_of,
  typed_plan_lem, make_typed, make_backend_plan,
}

module _ {A T : Type 0} (filter : Filter A T) (block batch tap_count bytes : ℕ) (taps : ℕ → T)
    (y : (ℕ → A) → ℕ → A) (filtering : IsFiltering filter taps tap_count block y)
    (small_taps : tap_count < 2 ^ 32) (small_block : block < 2 ^ 32) (input output : ℕ)
    (fits : batch * block < size_mod)
    (apart : Disjoint input (batch * block) output (batch * block)) where
  plan-IsStreaming :
      IsStreaming counted
        (fir_plan (plan_of filter bytes (new_state filter block batch tap_count taps)))
        batch
        block
        input
        output
        (λ x b. y (x b))
  unfolding new_state liquid_execute liquid_clear
  plan-IsStreaming = record {
    Has = Has filter taps tap_count block batch y filtering;
    start = λ x.
        rw (to_uint_lem tap_count small_taps)
          (new-Has filter taps tap_count block batch y filtering x);
    step = λ x s n m has fed.
        let count : to_uint s.block_size ≡ block =
          rw has.block_size (to_uint_lem block small_block) in
        let (answered, has') =
          run_bank_count-Has filter taps tap_count block batch y filtering input output fits apart x
            n s has (to_uint s.block_size) m.memory count fed in
        (refl, answered, has');
    restart = λ x x' s n has.
        (refl, reset_bank-Has filter taps tap_count block batch y filtering x x' s n has);
  }

module _ {num : Numbers} (liquid : Liquid num) (cfg : FirPlanConfig num) (h : TapMemory num)
    (accepted : invalid_common num cfg ≡ false) (given : cfg.taps ≡ some h)
    (single : cfg.precision ≡ FirPrecision.f32) (small_taps : cfg.tap_count < 2 ^ 32)
    (small_block : cfg.block_size < 2 ^ 32) where
  abbrev plan : FirPlan (Machine (num.Value (sample_of cfg.type)))
  plan = fir_plan (
      plan_of (filter_of liquid cfg.type)
        (mul_size (mul_size cfg.batch cfg.tap_count) (size_of (sample_of cfg.type)))
        (new_state (filter_of liquid cfg.type) cfg.block_size cfg.batch cfg.tap_count
          (h (tap_of cfg.type))))

  create-plan : (live : ℕ) → create (make_backend_plan liquid cfg live).0 ≡ of_value plan
  unfolding create make_backend_plan make_typed
  create-plan live =
      simp (accepted, given, single, typed_plan_lem liquid cfg.type cfg h)
        (ground (arith, small_taps, small_block))

  -- Over a library that filters as liquid-dsp documents, a valid configuration of F32, with counts
  -- that fit in `unsigned int` and buffers that do not overlap and fit in the address space, yields a
  -- plan; every session with it is answered with success and the filtered signals, across the borders
  -- of blocks, and after `clear` the same holds of the signals that begin then.
  pub liquid-Answers :
      (y : (ℕ → num.Value (sample_of cfg.type)) → ℕ → num.Value (sample_of cfg.type))
      (filtering : IsFiltering
        (filter_of liquid cfg.type)
        (h (tap_of cfg.type))
        cfg.tap_count
        cfg.block_size
        y)
      (input output live : ℕ)
      → cfg.batch * cfg.block_size < size_mod
      → Disjoint input (cfg.batch * cfg.block_size) output (cfg.batch * cfg.block_size)
      → (x x' : ℕ → ℕ → num.Value (sample_of cfg.type))
        (us vs : List (ℕ → num.Value (sample_of cfg.type)))
        (m m' : Machine (num.Value (sample_of cfg.type)))
      → Carries cfg.batch cfg.block_size x 0 us
      → Carries cfg.batch cfg.block_size x' 0 vs
      → (p : FirPlan (Machine (num.Value (sample_of cfg.type)))) × (create
            (make_backend_plan liquid cfg live).0
          ≡ of_value p)
        × AnswersAnew counted p cfg.batch cfg.block_size input output
            (λ b. y (x b))
            (λ b. y (x' b))
            us
            vs
            m
            m'
  liquid-Answers y filtering input output live fits apart x x' us vs m m' carried carried' =
      let streaming =
        plan-IsStreaming (filter_of liquid cfg.type) cfg.block_size cfg.batch cfg.tap_count _
          (h (tap_of cfg.type)) y filtering small_taps small_block input output fits apart in
      (plan, create-plan live, IsStreaming-AnswersAnew streaming x x' us vs m m' carried carried')
