-- ===== src/Fir/Liquid/Tests.antt =====
-- The theorems on liquid-dsp plans at concrete configurations, over objects that add to every sample
-- the one before it.
use dsp_dispatch.Base.{ℕ, ◌≡◌, ◌^◌, refl, arith, [], ◌∷◌, false}
use dsp_dispatch.Base.Machine.{Machine}
use dsp_dispatch.Fir.Types.{Status, FirPlanConfig, invalid_common, of_value}
use dsp_dispatch.Fir.Plan.{FirPlan, create}
use dsp_dispatch.Fir.Session.{counted, AnswersAnew}
use dsp_dispatch.Fir.Examples.{
  counting, taps, config, signal, two_blocks, empty_memory, fresh_signal, fresh_block, two_sums,
  adding, adding-IsFiltering,
}
use dsp_dispatch.Fir.Liquid.{Liquid, make_backend_plan}
use dsp_dispatch.Fir.Liquid.Plan.{liquid-Answers}
use dsp_dispatch.Fir.Liquid.Live.{live_after, liquid-create_live, liquid-destroy_live}

abbrev toy : Liquid counting
toy = record { rrrf = adding; crcf = adding; cccf = adding }

abbrev machine : Machine ℕ
machine = record { memory = empty_memory; live = 2 }

config_valid : invalid_common counting config ≡ false
unfolding invalid_common
config_valid = refl

liquid-Answers_example :
    (p : FirPlan (Machine ℕ)) × (create (make_backend_plan toy config 0).0 ≡ of_value p)
    × AnswersAnew counted p 2 2 0 8
        (λ b. two_sums (signal b))
        (λ b. two_sums (fresh_signal b))
        two_blocks
        (fresh_block ∷ [])
        machine
        machine
liquid-Answers_example =
    liquid-Answers toy config taps config_valid refl refl (omega arith) (omega arith) two_sums
      (adding-IsFiltering _) 0 8 0 (omega arith) (omega arith) signal fresh_signal two_blocks
      (fresh_block ∷ []) machine machine (omega arith) (omega arith)

abbrev long_blocks : FirPlanConfig counting
long_blocks = record config { block_size = 2 ^ 32 }

liquid-create_live_example :
    let (backend, live') = make_backend_plan toy long_blocks 5 in
    ((create backend).status ≡ Status.invalid_argument) × (live' ≡ 5)
unfolding invalid_common
liquid-create_live_example = liquid-create_live toy long_blocks 5

liquid-destroy_live_example : live_after toy config empty_memory 5 ≡ 5
liquid-destroy_live_example = liquid-destroy_live toy config empty_memory 5
