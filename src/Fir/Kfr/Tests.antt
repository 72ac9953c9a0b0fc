-- ===== src/Fir/Kfr/Tests.antt =====
-- The theorem on KFR plans at a concrete configuration, over objects that add to every sample the one
-- before it.
use dsp_dispatch.Base.{ℕ, ◌≡◌, refl, arith, [], ◌∷◌, Memory, false}
use dsp_dispatch.Fir.Types.{invalid_common, of_value}
use dsp_dispatch.Fir.Plan.{FirPlan, create}
use dsp_dispatch.Fir.Session.{plain, AnswersAnew}
use dsp_dispatch.Fir.Examples.{
  counting, taps, config, signal, two_blocks, empty_memory, fresh_signal, fresh_block, two_sums,
  adding, adding-IsFiltering,
}
use dsp_dispatch.Fir.Kfr.{make_backend_plan}
use dsp_dispatch.Fir.Kfr.Plan.{kfr_real-Answers}

config_valid : invalid_common counting config ≡ false
unfolding invalid_common
config_valid = refl

kfr_real-Answers_example :
    (p : FirPlan (Memory ℕ)) × (create (make_backend_plan counting adding config) ≡ of_value p)
    × AnswersAnew plain p 2 2 0 8
        (λ b. two_sums (signal b))
        (λ b. two_sums (fresh_signal b))
        two_blocks
        (fresh_block ∷ [])
        empty_memory
        empty_memory
kfr_real-Answers_example =
    kfr_real-Answers counting adding config taps config_valid refl refl refl two_sums
      (λ taps_of same. adding-IsFiltering taps_of) 0 8 (omega arith) (omega arith) signal
      fresh_signal two_blocks (fresh_block ∷ []) empty_memory empty_memory (omega arith)
      (omega arith)
