-- ===== src/Fft/Mkl/Create.antt =====
-- `make_backend_plan` of the MKL backend behind `FftPlan::create`: when it succeeds, and how many
-- descriptors it leaves live.
use dsp_dispatch.Base.{ℕ, suc, ◌≡◌, arith, Bool, false, ◌||◌, if◌then◌else◌, none, some, Memory}
use dsp_dispatch.Base.Int.{ℤ}
use dsp_dispatch.Fft.Types.{Status, FftPlanConfig, is_empty, is_ok}
use dsp_dispatch.Fft.Direction.{contradicts, inverts}
use dsp_dispatch.Fft.Plan.{create, destroy}
use dsp_dispatch.Fft.Mkl.{
  Dfti, prec_of, domain_of, dfti_ok, make_typed, make_backend_plan, mkl_destroy,
}
use dsp_dispatch.Fft.Mkl.Settings.{settings, apply, configure-apply}

module _ {A : Type 0} (dfti : Dfti A) (cfg : FftPlanConfig) where
  -- The answer to the creation of a descriptor for the configuration.
  abbrev pub created : ℤ × dfti.Descriptor
  created = dfti.create_descriptor (prec_of cfg.precision) (domain_of cfg.type) 1 cfg.length

  -- Whether the library makes the descriptor, takes its settings, and commits it.
  abbrev pub accepted : Bool
  accepted =
      if dfti_ok dfti created.0
      then (apply dfti (settings dfti cfg (inverts cfg.type cfg.direction)) created.1).0
      else false

  abbrev pub expected : Status
  expected =
      if is_empty cfg || contradicts cfg.type cfg.direction
      then Status.invalid_argument
      else if accepted
      then Status.ok
      else Status.backend_error

  -- Creation fails with InvalidArgument where the length or the batch is 0 or the type contradicts
  -- the direction, and else with BackendError where the library reports an error for the creation of
  -- the descriptor, for one of its settings in their order, or for the commitment; then no more
  -- descriptors are live than before. Otherwise it succeeds, and one more is.
  pub mkl-create_live :
      (live : ℕ)
      → let (backend, live') = make_backend_plan dfti cfg live in
        ((create backend).status ≡ expected) × (live' ≡ (if is_ok expected then suc live else live))
  unfolding create make_backend_plan make_typed
  mkl-create_live live =
      rw (← configure-apply dfti cfg (inverts cfg.type cfg.direction) created.1) (ground arith)

  -- How many descriptors are live when the plan, where creation gave one, has been destroyed.
  abbrev pub live_after : Memory A → ℕ → ℕ
  live_after mem live =
      let (backend, live') = make_backend_plan dfti cfg live in
      elim (create backend).value [
        | none ↦ live'
        | some p ↦ (destroy p (record { memory = mem; live = live' })).live
      ]

  -- A creation and, where it gave a plan, its destruction leave as many descriptors live as there
  -- were before, on every path.
  pub mkl-destroy_live : (mem : Memory A) (live : ℕ) → live_after mem live ≡ live
  unfolding create make_backend_plan make_typed destroy mkl_destroy
  mkl-destroy_live mem live = ground arith
