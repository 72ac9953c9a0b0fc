-- ===== src/Bench/Fir/Creations.antt =====
-- What the benchmarks of plan creation leave behind, over the liquid-dsp backend.
use dsp_dispatch.Base.{ℕ, ◌≡◌, refl, ◌∙◌, arith, for_range_inv, none, some, Option}
use dsp_dispatch.Base.Machine.{Machine}
use dsp_dispatch.Base.Cpp.{CppType, Numbers}
use dsp_dispatch.Fir.Types.{FirPlanConfig, Result}
use dsp_dispatch.Fir.Plan.{BackendPlan, FirPlan, create, destroy}
use dsp_dispatch.Fir.Liquid
use dsp_dispatch.Fir.Liquid.{Liquid, sample_of}
use dsp_dispatch.Fir.Liquid.Live.{liquid-destroy_live}
use dsp_dispatch.Bench.Fir.{config, dropped, run_plan_create}

module _ {num : Numbers} (liquid : Liquid num) where
  -- The machine of a configuration, and the creation as it counts the objects of the machine.
  abbrev pub MachineOf : FirPlanConfig num → Type 0
  MachineOf cfg = Machine (num.Value (sample_of cfg.type))

  abbrev pub make_counted :
      (cfg : FirPlanConfig num)
      → MachineOf cfg
      → Result (BackendPlan (MachineOf cfg)) × MachineOf cfg
  make_counted cfg m =
      let (backend, live) = Liquid.make_backend_plan liquid cfg m.live in
      (backend, record m { live = live })

  -- One round.
  abbrev once : (cfg : FirPlanConfig num) → MachineOf cfg → MachineOf cfg
  once cfg m = let (backend, m') = make_counted cfg m in dropped (create backend).value m'

  live-dropped :
      (cfg : FirPlanConfig num) (o : Option (FirPlan (MachineOf cfg))) (m : MachineOf cfg)
      → (dropped o m).live ≡ elim o [ none ↦ m.live | some p ↦ (destroy p m).live ]
  live-dropped cfg none m = refl
  live-dropped cfg (some p) m = refl

  live-once : (cfg : FirPlanConfig num) (m : MachineOf cfg) → (once cfg m).live ≡ m.live
  live-once cfg m =
      let (backend, m') = make_counted cfg m in
      live-dropped cfg (create backend).value m' ∙ liquid-destroy_live liquid cfg m.memory m.live

  -- Over liquid-dsp, a benchmark of plan creation for any block size and number of taps and of any
  -- number of rounds, whether the creations succeed or not, leaves as many filter objects live as
  -- there were before.
  pub run_plan_create-liquid_live :
      (inverse_of : ℕ → num.Value CppType.float) (block_size tap_count iterations : ℕ)
      (m : MachineOf (config num inverse_of block_size tap_count))
      → (run_plan_create num inverse_of make_counted block_size tap_count iterations m).live
        ≡ m.live
  unfolding run_plan_create
  run_plan_create-liquid_live inverse_of block_size tap_count iterations m =
      let cfg = config num inverse_of block_size tap_count in
      for_range_inv (λ k (v : MachineOf cfg). v.live ≡ m.live) (λ i. once cfg) iterations iterations
        0 m (omega arith) (λ k v lo hk e. live-once cfg v ∙ e) refl
