-- ===== src/Fft/Pocket/Create.antt =====
-- `make_backend_plan` of the PocketFFT backend behind `FftPlan::create`, and the plans it makes.
use native.Mathlib.Nat.{mul-le-mul_left}
use dsp_dispatch.Base.{
  ℕ, ◌+◌, ◌*◌, ◌/◌, ◌^◌, ◌<◌, ◌≤◌, ◌≡◌, ◌⊎◌, inl, refl, arith, size_mod, mul_size, mul_size_lem,
  Memory, Disjoint, Bool, false, some, if◌then◌else◌, ◌||◌,
}
use dsp_dispatch.Fft.Types.{Status, FftType, FftPrecision, FftPlanConfig, is_empty, is_ok, of_value}
use dsp_dispatch.Fft.Layout.{in_width, out_width, real_size, Serves}
use dsp_dispatch.Fft.Direction.{contradicts, inverts, resolve-inverts}
use dsp_dispatch.Fft.Plan.{FftPlan, fft_plan, create, execute}
use dsp_dispatch.Fft.Pocket.{
  Pocket, pocket_execute, pocket_state, factor, warm_up, in_bytes, plan_of, make_typed,
  make_backend_plan,
}
use dsp_dispatch.Fft.Pocket.Run.{Spectrum, IsDocumented, forward_of, pocket_run-Serves}

product_size :
    (c n batch : ℕ)
    → 0 < c
    → n * batch * c < size_mod
    → n * batch * c ≤ mul_size (mul_size n batch) c
product_size c n batch pos h =
    let le = mul-le-mul_left {m = 1} {n = c} (n * batch) pos in
    rw (mul_size_lem n batch (omega arith)) (omega (arith, mul_size_lem (n * batch) c h))

in_bytes-le :
    (p : FftPrecision) (t : FftType) (n batch : ℕ)
    → batch * in_width t n * real_size p < size_mod
    → 0 + batch * in_width t n * real_size p ≤ in_bytes p t n batch
in_bytes-le FftPrecision.f32 FftType.complex n batch h =
    omega (arith, product_size 8 n batch (omega arith) (omega arith))
in_bytes-le FftPrecision.f64 FftType.complex n batch h =
    omega (arith, product_size 16 n batch (omega arith) (omega arith))
in_bytes-le FftPrecision.f32 FftType.real_to_complex n batch h =
    omega (arith, product_size 4 n batch (omega arith) (omega arith))
in_bytes-le FftPrecision.f64 FftType.real_to_complex n batch h =
    omega (arith, product_size 8 n batch (omega arith) (omega arith))
in_bytes-le FftPrecision.f32 FftType.complex_to_real n batch h =
    omega (arith, product_size 8 (n / 2 + 1) batch (omega arith) (omega arith))
in_bytes-le FftPrecision.f64 FftType.complex_to_real n batch h =
    omega (arith, product_size 16 (n / 2 + 1) batch (omega arith) (omega arith))

module _ (pocket : Pocket) (cfg : FftPlanConfig) where
  open pocket use {Float}

  abbrev inverse : Bool
  inverse = inverts cfg.type cfg.direction

  abbrev expected : Status
  expected =
      if is_empty cfg || contradicts cfg.type cfg.direction
      then Status.invalid_argument
      else if is_ok (warm_up pocket cfg.precision cfg inverse)
      then Status.ok
      else Status.backend_error

  -- Creation fails with InvalidArgument where the length or the batch is 0 or the type contradicts
  -- the direction, and else with BackendError where the warm-up run fails; otherwise it succeeds.
  pub pocket-create_status : (create (make_backend_plan pocket cfg)).status ≡ expected
  unfolding create make_backend_plan make_typed
  pocket-create_status = ground arith

  abbrev plan : FftPlan (Memory (Float cfg.precision))
  plan = fft_plan (plan_of pocket cfg.precision (pocket_state cfg.precision cfg inverse))

  create-plan :
      is_empty cfg ≡ false
      → contradicts cfg.type cfg.direction ≡ false
      → warm_up pocket cfg.precision cfg inverse ≡ Status.ok
      → create (make_backend_plan pocket cfg) ≡ of_value plan
  unfolding create make_backend_plan make_typed
  create-plan some_work agrees warm =
      simp (some_work, resolve-inverts cfg.type cfg.direction agrees, warm)

  module _ (f : Spectrum pocket cfg.precision)
      (doc : IsDocumented pocket cfg.precision f cfg.type cfg.length)
      (agrees : contradicts cfg.type cfg.direction ≡ false) (hn : 0 < cfg.length)
      (hb : 0 < cfg.batch)
      (fi : cfg.batch * in_width cfg.type cfg.length * real_size cfg.precision < 2 ^ 63)
      (fo : cfg.batch * out_width cfg.type cfg.length * real_size cfg.precision < 2 ^ 63) where
    warm_up-ok : warm_up pocket cfg.precision cfg inverse ≡ Status.ok
    unfolding warm_up
    warm_up-ok =
        (pocket_run-Serves pocket cfg.precision f cfg doc inverse 0
          (in_bytes cfg.precision cfg.type cfg.length cfg.batch) (λ _. pocket.zero cfg.precision) hn
          hb fi fo
          (inl
            (inl (in_bytes-le cfg.precision cfg.type cfg.length cfg.batch (omega (arith, fi)))))).0

    -- Over a library that does what PocketFFT documents for the type and the length, a valid
    -- configuration whose buffers have fewer than 2^63 bytes yields a plan; each call of it, on buffers that are apart, or that are
    -- the same for type `Complex`, succeeds, leaves the plan as it was, and serves the caller with
    -- the library's transform, with the factor 1/n where it is an inverse one and 1 else.
    pub pocket-Serves :
        (input output : ℕ) (mem : Memory (Float cfg.precision))
        → Disjoint input
            (cfg.batch * in_width cfg.type cfg.length * real_size cfg.precision)
            output
            (cfg.batch * out_width cfg.type cfg.length * real_size cfg.precision)
          ⊎ ((cfg.type ≡ FftType.complex) × (input ≡ output))
        → (p : FftPlan (Memory (Float cfg.precision))) × (create (make_backend_plan pocket cfg)
            ≡ of_value p)
          × (let (status, p', mem') = execute p (some input) (some output) mem in
              (status ≡ Status.ok)
              × (p' ≡ p)
              × Serves
                  (real_size cfg.precision)
                  cfg.batch
                  (in_width cfg.type cfg.length)
                  (out_width cfg.type cfg.length)
                  (f cfg.type
                    (forward_of cfg.type inverse)
                    cfg.length
                    (factor pocket cfg.precision (pocket_state cfg.precision cfg inverse)))
                  input
                  output
                  mem
                  mem')
    unfolding create make_backend_plan make_typed execute pocket_execute
    pocket-Serves input output mem place =
        let done =
          pocket_run-Serves pocket cfg.precision f cfg doc inverse input output mem hn hb fi fo
            place in
        (plan, create-plan (ground arith) agrees warm_up-ok, (done.0, refl, done.1))
