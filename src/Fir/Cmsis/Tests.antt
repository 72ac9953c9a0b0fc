-- ===== src/Fir/Cmsis/Tests.antt =====
-- The theorems on CMSIS-DSP plans at concrete configurations.
use dsp_dispatch.Base.{ℕ, ◌≡◌, refl, arith, [], ◌∷◌, Memory, false}
use dsp_dispatch.Fir.Types.{invalid_common, of_value}
use dsp_dispatch.Fir.Plan.{FirPlan, create}
use dsp_dispatch.Fir.Session.{plain, AnswersAnew}
use dsp_dispatch.Fir.Examples.{
  counting, taps, config, signal, two_blocks, empty_memory, fresh_signal, fresh_block,
}
use dsp_dispatch.Fir.Cmsis.Examples.{both, weighed, weighing-IsDocumented}
use dsp_dispatch.Fir.Cmsis.{make_backend_plan}
use dsp_dispatch.Fir.Cmsis.Plan.{cmsis_fir-Answers}

config_valid : invalid_common counting config ≡ false
unfolding invalid_common
config_valid = refl

cmsis_fir-Answers_example :
    (p : FirPlan (Memory ℕ)) × (create (make_backend_plan both config) ≡ of_value p)
    × AnswersAnew plain p 2 2 0 8
        (λ b. weighed (signal b))
        (λ b. weighed (fresh_signal b))
        two_blocks
        (fresh_block ∷ [])
        empty_memory
        empty_memory
cmsis_fir-Answers_example =
    cmsis_fir-Answers both config taps config_valid refl refl (omega arith) (omega arith) weighed
      weighing-IsDocumented (omega arith) (omega arith) 0 8 (omega arith) signal fresh_signal
      two_blocks (fresh_block ∷ []) empty_memory empty_memory (omega arith) (omega arith)
