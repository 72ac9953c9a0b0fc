-- ===== src/Fft/Armpl/Create.antt =====
-- `make_backend_plan` of the ArmPL backend behind `FftPlan::create`: when it succeeds, and what it
-- leaves live of the library's blocks and plans.
use dsp_dispatch.Base.{
  ℕ, ◌+◌, ◌<◌, ◌≡◌, refl, ap, arith, mul_size, Memory, Bool, true, false, ◌&&◌, ◌||◌, if◌then◌else◌,
  some, none, ◌*◌, ◌^◌, Disjoint, size_mod,
}
use dsp_dispatch.Fft.Types.{Status, FftPrecision, FftPlanConfig, is_empty, is_ok, of_value}
use dsp_dispatch.Fft.Direction.{contradicts, inverts, resolve-inverts}
use dsp_dispatch.Fft.Layout.{real_size, in_width, out_width, Serves}
use dsp_dispatch.Fft.Plan.{FftPlan, fft_plan, create, execute, destroy}
use dsp_dispatch.Fft.Armpl.{
  make_plan, release, armpl_destroy, in_scratch, out_scratch, scratch_state, plan_of, make_typed,
  make_backend_plan,
}
use dsp_dispatch.Fft.Fftw3.{Fftw, Machine, Live, Spectrum, IsDocumented, normalized}
use dsp_dispatch.Fft.Armpl.Execute.{armpl_execute-Serves}

module _ (fftw : FftPrecision → Fftw) (cfg : FftPlanConfig) where
  abbrev library : Fftw
  library = fftw cfg.precision

  -- The bytes of the two scratch buffers.
  abbrev in_bytes : ℕ
  in_bytes = mul_size (real_size cfg.precision) (in_scratch cfg.type cfg.length cfg.batch)

  abbrev out_bytes : ℕ
  out_bytes = mul_size (real_size cfg.precision) (out_scratch cfg.type cfg.length cfg.batch)

  -- Whether both scratch buffers are granted, and the planner returns a plan.
  abbrev provided : Bool
  provided =
      library.granted 0 in_bytes
      && (library.granted 1 out_bytes
          && elim (make_plan library cfg.type (inverts cfg.type cfg.direction) cfg.length
              cfg.batch) [ none ↦ false | some _ ↦ true ])

  abbrev expected : Status
  expected =
      if is_empty cfg || contradicts cfg.type cfg.direction
      then Status.invalid_argument
      else if provided
      then Status.ok
      else Status.backend_error

  -- Creation fails with InvalidArgument where the length or the batch is 0 or the type contradicts
  -- the direction, and else with BackendError where an allocation or the planner fails; then nothing
  -- more is live than before. Otherwise it succeeds, and two blocks and a plan more are live.
  pub armpl-create_live :
      (l : Live)
      → let (backend, l') = make_backend_plan fftw cfg l in
        ((create backend).status ≡ expected)
        × (l'.blocks ≡ (if is_ok expected then 2 + l.blocks else l.blocks))
        × (l'.plans ≡ (if is_ok expected then 1 + l.plans else l.plans))
  unfolding create make_backend_plan make_typed release
  armpl-create_live l = ground arith

  -- What is live when the plan, where creation gave one, has been destroyed.
  abbrev pub live_after : Memory library.Float → Live → Live
  live_after mem l =
      let (backend, l') = make_backend_plan fftw cfg l in
      elim (create backend).value [
        | none ↦ l'
        | some p ↦ (destroy p (record { memory = mem; live = l' })).live
      ]

  -- A creation and, where it gave a plan, its destruction leave as many blocks and plans live as
  -- there were before, on every path.
  pub armpl-destroy_live : (mem : Memory library.Float) (l : Live) → live_after mem l ≡ l
  unfolding create make_backend_plan make_typed release destroy armpl_destroy
  armpl-destroy_live mem l = ground arith

  abbrev inverse : Bool
  inverse = inverts cfg.type cfg.direction

  abbrev plan : library.Plan → FftPlan (Machine library.Float)
  plan q = fft_plan (
      plan_of library (real_size cfg.precision) cfg
        (record (scratch_state library (real_size cfg.precision) cfg inverse) { plan = some q }))

  create-plan :
      (q : library.Plan) (l : Live)
      → is_empty cfg ≡ false
      → contradicts cfg.type cfg.direction ≡ false
      → library.granted 0 in_bytes ≡ true
      → library.granted 1 out_bytes ≡ true
      → make_plan library cfg.type inverse cfg.length cfg.batch ≡ some q
      → create (make_backend_plan fftw cfg l).0 ≡ of_value (plan q)
  unfolding create make_backend_plan make_typed
  create-plan q l work agrees first second made =
      simp (work, resolve-inverts cfg.type cfg.direction agrees, first, second, made)

  -- Over a library that does what FFTW documents and grants the two scratch buffers, a valid
  -- configuration for which the planner has a plan, with sizes that fit in `int` and `size_t`,
  -- yields a plan; each call of it, on buffers that are apart, succeeds, leaves the plan as it was,
  -- and serves the caller with the transform, times 1/n where it is an inverse one.
  pub armpl-Serves :
      (f : Spectrum library) (doc : IsDocumented library f) (q : library.Plan) (l : Live)
      (input output : ℕ) (mem : Memory library.Float)
      → contradicts cfg.type cfg.direction ≡ false
      → library.granted 0 in_bytes ≡ true
      → library.granted 1 out_bytes ≡ true
      → make_plan library cfg.type inverse cfg.length cfg.batch ≡ some q
      → 0 < cfg.length
      → cfg.length < 2 ^ 31
      → 0 < cfg.batch
      → cfg.batch < 2 ^ 31
      → cfg.batch * out_width cfg.type cfg.length < size_mod
      → Disjoint input
          (cfg.batch * in_width cfg.type cfg.length)
          output
          (cfg.batch * out_width cfg.type cfg.length)
      → (p : FftPlan (Machine library.Float)) × (create (make_backend_plan fftw cfg l).0
          ≡ of_value p)
        × (let (status, p', m') =
              execute p (some input) (some output) (record { memory = mem; live = l }) in
            (status ≡ Status.ok)
            × (p' ≡ p)
            × Serves 1 cfg.batch
                (in_width cfg.type cfg.length)
                (out_width cfg.type cfg.length)
                (normalized library f cfg.type inverse cfg.length)
                input
                output
                mem
                m'.memory)
  unfolding execute
  armpl-Serves f doc q l input output mem agrees first second made hn ln hb lb fits apart =
      let served =
        armpl_execute-Serves library f doc cfg.type cfg.direction
          (record (scratch_state library (real_size cfg.precision) cfg inverse) { plan = some q }) q
          input output (record { memory = mem; live = l }) agrees refl refl refl made hn ln hb lb
          fits apart in
      (
        plan q,
        create-plan q l (ground arith) agrees first second made,
        (served.0, ap (λ s. record (plan q) { state = s }) served.1, served.3),
      )
