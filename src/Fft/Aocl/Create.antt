-- ===== src/Fft/Aocl/Create.antt =====
-- `make_backend_plan` of the AOCL backend behind `FftPlan::create`.
use dsp_dispatch.Base.{
  ℕ, suc, ◌*◌, ◌<◌, ◌≡◌, ◌↔◌, ◌⊎◌, arith, Bool, true, false, not, ◌&&◌, ◌||◌, if◌then◌else◌, Option,
  some, none, Bool-cases, inl, inr, ◌==◌,
}
use dsp_dispatch.Base.Machine.{Machine}
use dsp_dispatch.Fft.Types.{Status, FftPrecision, FftPlanConfig, Result, is_empty, is_ok}
use dsp_dispatch.Fft.Direction.{contradicts, inverts}
use dsp_dispatch.Fft.Plan.{BackendPlan, create}
use dsp_dispatch.Fft.Aocl.{Fftz, is_real, describe, make_typed, make_backend_plan}
use dsp_dispatch.Fft.Aocl.Length.{
  aocl_real_length_supported, IsSmooth, one, times, val, Factor, supported_iff,
}

factor_pos : (p : Factor) (n : ℕ) → 0 < n → 0 < val p * n
factor_pos Factor.two n h = omega arith
factor_pos Factor.three n h = omega arith
factor_pos Factor.five n h = omega arith
factor_pos Factor.seven n h = omega arith

IsSmooth-pos : {n : ℕ} → IsSmooth n → 0 < n
IsSmooth-pos one = omega arith
IsSmooth-pos (times p {n} m w e) = rw e (factor_pos p n (IsSmooth-pos w))

module _ (fftz : FftPrecision → Fftz) (cfg : FftPlanConfig) where
  abbrev library : Fftz
  library = fftz cfg.precision

  -- Whether AOCL gives a handle.
  abbrev handled : Bool
  handled =
      elim (library.setup
        (describe cfg.type (inverts cfg.type cfg.direction) cfg.length cfg.batch)) [
          | none ↦ false
          | some _ ↦ true
        ]

  abbrev pub expected : (smooth : Bool) → Status
  expected smooth =
      if is_empty cfg || contradicts cfg.type cfg.direction
      then Status.invalid_argument
      else if is_real cfg.type && not smooth
      then Status.unsupported_length
      else if handled
      then Status.ok
      else Status.backend_error

  -- The creation ends with that status, and with one more live handle where it succeeds.
  abbrev pub Ends :
      (live : ℕ) (smooth : Bool)
      → Option (Result (BackendPlan (Machine library.Float)) × ℕ)
      → Type 0
  Ends live smooth none = ⊥
  Ends live smooth (some (backend, live')) =
      ((create backend).status ≡ expected smooth)
      × (live' ≡ (if is_ok (expected smooth) then suc live else live))

  create-supported :
      (live : ℕ) (smooth : Bool)
      → (is_empty cfg ≡ true) ⊎ (aocl_real_length_supported cfg.length ≡ some smooth)
      → Ends live smooth (make_backend_plan fftz cfg live)
  unfolding create make_backend_plan make_typed
  create-supported live smooth (inl empty) = rw empty (ground arith)
  create-supported live smooth (inr test) = ground (arith, test)

  -- Creation ends, with InvalidArgument where the length or the batch is 0 or the type contradicts
  -- the direction; else, of a real type whose length is no product of 2, 3, 5 and 7, with
  -- UnsupportedLength; else with BackendError where the setup gives no handle. Otherwise it succeeds,
  -- and one more handle is live; else none is.
  pub aocl-create_status :
      (live : ℕ)
      → (smooth : Bool) × ((smooth ≡ true) ↔ IsSmooth cfg.length)
        × Ends live smooth (make_backend_plan fftz cfg live)
  aocl-create_status live = elim (Bool-cases (cfg.length == 0)) [
    | inl empty ↦ (
      false,
      (λ f. ground arith, λ w. ground (arith, IsSmooth-pos w)),
      create-supported live false (inl (ground arith)),
    )
    | inr work ↦
        let (smooth, test, iff) = supported_iff cfg.length (ground arith) in
        (smooth, iff, create-supported live smooth (inr test))
  ]
