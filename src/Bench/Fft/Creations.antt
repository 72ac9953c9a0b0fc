-- ===== src/Bench/Fft/Creations.antt =====
-- What the benchmarks of plan creation leave behind, over the ArmPL and the MKL backend.
use dsp_dispatch.Base.{ℕ, ◌≡◌, refl, ◌∙◌, arith, for_range_inv, none, some, Option}
use dsp_dispatch.Fft.Types.{FftPrecision, FftPlanConfig, Result}
use dsp_dispatch.Fft.Plan.{BackendPlan, FftPlan, create, destroy}
use dsp_dispatch.Fft.Fftw3.{Fftw, Machine}
use dsp_dispatch.Fft.Armpl
use dsp_dispatch.Fft.Armpl.Create.{armpl-destroy_live}
use dsp_dispatch.Bench.Fft.{config, dropped, run_plan_create}

module _ (fftw : FftPrecision → Fftw) where
  -- The machine of a configuration, and the creation as it counts what the machine has live.
  abbrev pub MachineOf : FftPlanConfig → Type 0
  MachineOf cfg = Machine (fftw cfg.precision).Float

  abbrev pub make_counted :
      (cfg : FftPlanConfig) → MachineOf cfg → Result (BackendPlan (MachineOf cfg)) × MachineOf cfg
  make_counted cfg m =
      let (backend, live) = Armpl.make_backend_plan fftw cfg m.live in
      (backend, record m { live = live })

  -- One round.
  abbrev once : (cfg : FftPlanConfig) → MachineOf cfg → MachineOf cfg
  once cfg m = let (backend, m') = make_counted cfg m in dropped (create backend).value m'

  live-dropped :
      (cfg : FftPlanConfig) (o : Option (FftPlan (MachineOf cfg))) (m : MachineOf cfg)
      → (dropped o m).live ≡ elim o [ none ↦ m.live | some p ↦ (destroy p m).live ]
  live-dropped cfg none m = refl
  live-dropped cfg (some p) m = refl

  live-once : (cfg : FftPlanConfig) (m : MachineOf cfg) → (once cfg m).live ≡ m.live
  live-once cfg m =
      let (backend, m') = make_counted cfg m in
      live-dropped cfg (create backend).value m' ∙ armpl-destroy_live fftw cfg m.memory m.live

  -- Over Arm Performance Libraries, a benchmark of plan creation for any length and of any number of
  -- rounds, whether the creations succeed or not, leaves as many blocks and plans live as there were
  -- before.
  pub run_plan_create-armpl_live :
      (n iterations : ℕ) (m : MachineOf (config n))
      → (run_plan_create make_counted n iterations m).live ≡ m.live
  unfolding run_plan_create
  run_plan_create-armpl_live n iterations m =
      for_range_inv (λ k (v : MachineOf (config n)). v.live ≡ m.live) (λ i. once (config n))
        iterations iterations 0 m (omega arith) (λ k v lo hk e. live-once (config n) v ∙ e) refl
