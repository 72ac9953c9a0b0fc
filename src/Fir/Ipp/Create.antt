-- ===== src/Fir/Ipp/Create.antt =====
-- The IPP filter: with which of IPP's answers creation succeeds, for every configuration.
use dsp_dispatch.Base.{
  ℕ, zero, suc, ◌≡◌, ◌^◌, ◌==◌, leb, ◌||◌, refl, arith, Bool, true, false, none, some, Option,
  if◌then◌else◌,
}
use dsp_dispatch.Base.Int.{ℤ, pos, negsuc, is_nonpositive, is_negative, to_size}
use dsp_dispatch.Base.Cpp.{CppType, Numbers}
use dsp_dispatch.Fir.Types.{
  Status, FirPlanConfig, FirPrecision, FirType, TapMemory, invalid_common, is_ok, is_null, Result,
  of_status,
}
use dsp_dispatch.Fir.Plan.{BackendPlan, create}
use dsp_dispatch.Fir.Ipp.{
  Ipp, IppStatus, IppDataType, no_err, null_ptr_err, fir_len_err, size_err, alg_type_err, other,
  map_status, make_typed, Special, get_size, ipp_init, make_backend_plan, s32f_t32f, s64f_t64f,
  s32fc_t32fc, s64fc_t64fc, s32fc_t32f,
}

-- What a caller is told of a status of IPP.
abbrev pub told : IppStatus → Status
told no_err = Status.ok
told null_ptr_err = Status.null_pointer
told fir_len_err = Status.invalid_argument
told size_err = Status.invalid_argument
told alg_type_err = Status.unsupported_config
told (other _) = Status.backend_error

-- What two queries end with: one for the sizes of the specification and of the working buffer, and,
-- if it gives a specification some bytes, the initialisation of so many.
abbrev pub ended : IppStatus × ℤ × ℤ → (ℕ → IppStatus) → Status
ended (no_err, pos (suc n), pos work) init = told (init (suc n))
ended (no_err, pos (suc n), negsuc work) init = Status.backend_error
ended (no_err, pos zero, work) init = Status.backend_error
ended (no_err, negsuc n, work) init = Status.backend_error
ended (st, _, _) init = told st

map_status-told : (st : IppStatus) → map_status st ≡ told st
unfolding map_status
map_status-told no_err = refl
map_status-told null_ptr_err = refl
map_status-told fir_len_err = refl
map_status-told size_err = refl
map_status-told alg_type_err = refl
map_status-told (other n) = refl

-- The tests of `make_typed` on the answers.
abbrev tested : IppStatus × ℤ × ℤ → (ℕ → IppStatus) → Status
tested (st, spec, work) init =
    if is_ok (map_status st)
    then (if is_nonpositive spec || is_negative work
        then Status.backend_error
        else map_status (init (to_size spec)))
    else map_status st

tested-ended :
    (answer : IppStatus × ℤ × ℤ) (init : ℕ → IppStatus) → tested answer init ≡ ended answer init
unfolding map_status
tested-ended (no_err, pos (suc n), pos work) init = map_status-told (init (suc n))
tested-ended (no_err, pos (suc n), negsuc work) init = refl
tested-ended (no_err, pos zero, work) init = refl
tested-ended (no_err, negsuc n, work) init = refl
tested-ended (null_ptr_err, spec, work) init = refl
tested-ended (fir_len_err, spec, work) init = refl
tested-ended (size_err, spec, work) init = refl
tested-ended (alg_type_err, spec, work) init = refl
tested-ended (other n, spec, work) init = refl

-- A result with a status, which has a value exactly if that is Ok.
abbrev Ends : {A : Type 1} → Result A → Status → Type 0
Ends r answer = (r.status ≡ answer) × (is_null r.value ≡ (if is_ok answer then false else true))

-- What follows a test that refuses.
accepted-Ends :
    {A : Type 1} (refused : Bool) (r : Result A) (answer : Status)
    → Ends r answer
    → Ends
        (if refused then of_status Status.invalid_argument else r)
        (if refused then Status.invalid_argument else answer)
accepted-Ends true r answer ends = (refl, refl)
accepted-Ends false r answer ends = ends

create-Ends :
    {N : Type 0} (r : Result (BackendPlan N)) (answer : Status)
    → Ends r answer
    → Ends (create r) answer
unfolding create
create-Ends r answer ends = ground (arith, ends.0, ends.1)

module _ {num : Numbers} (ipp : Ipp num) where
  -- The two queries of IPP for a kind of filter; there is none for real taps on complex doubles.
  abbrev pub queried :
      FirPrecision → FirType → TapMemory num → ℕ → Option ((IppStatus × ℤ × ℤ) × (ℕ → IppStatus))
  queried FirPrecision.f32 FirType.real h n = some (
    ipp.fir_get_size n IppDataType.ipp_32f,
    λ bytes. (ipp.fir_init_32f (h CppType.float) n (ipp.blank bytes)).0,
  )
  queried FirPrecision.f32 FirType.complex_real_taps h n = some (
    ipp.fir_get_size_32f_32fc n,
    λ bytes. (ipp.fir_init_32f_32fc (h CppType.float) n (ipp.blank bytes)).0,
  )
  queried FirPrecision.f32 FirType.complex h n = some (
    ipp.fir_get_size n IppDataType.ipp_32fc,
    λ bytes. (ipp.fir_init_32fc (h CppType.complex_float) n (ipp.blank bytes)).0,
  )
  queried FirPrecision.f64 FirType.real h n = some (
    ipp.fir_get_size n IppDataType.ipp_64f,
    λ bytes. (ipp.fir_init_64f (h CppType.double) n (ipp.blank bytes)).0,
  )
  queried FirPrecision.f64 FirType.complex h n = some (
    ipp.fir_get_size n IppDataType.ipp_64fc,
    λ bytes. (ipp.fir_init_64fc (h CppType.complex_double) n (ipp.blank bytes)).0,
  )
  queried FirPrecision.f64 FirType.complex_real_taps h n = none

  abbrev pub of_queries :
      FirPlanConfig num → Option ((IppStatus × ℤ × ℤ) × (ℕ → IppStatus)) → Status
  of_queries cfg none = Status.unsupported_config
  of_queries cfg (some (sizes, init)) =
      if leb (2 ^ 31) cfg.tap_count || leb (2 ^ 31) cfg.block_size
      then Status.unsupported_config
      else ended sizes init

  abbrev pub expected : FirPlanConfig num → Status
  expected cfg = elim cfg.taps [
    | none ↦ Status.invalid_argument
    | some h ↦
        if cfg.tap_count == 0 || (cfg.block_size == 0 || cfg.batch == 0)
        then Status.invalid_argument
        else of_queries cfg (queried cfg.precision cfg.type h cfg.tap_count)
  ]

  -- what `make_typed` ends with
  typed-tested :
      {sample tap : CppType} (k : Special sample tap) (cfg : FirPlanConfig num) (h : TapMemory num)
      → let answer = of_queries cfg (
          some (
            get_size ipp k cfg.tap_count,
            λ bytes. (ipp_init ipp k (h tap) cfg.tap_count (ipp.blank bytes)).0,
          )) in
        Ends (make_typed ipp k cfg h) answer
  unfolding make_typed
  typed-tested k cfg h = rw (← tested-ended (get_size ipp k cfg.tap_count) _) (ground arith)

  -- the configuration with these fields
  abbrev fields :
      FirType → FirPrecision → Option (TapMemory num) → (n block batch : ℕ) → FirPlanConfig num
  fields t p h n block batch = record {
    type = t;
    precision = p;
    taps = h;
    tap_count = n;
    block_size = block;
    batch = batch;
  }

  backend-Ends :
      (t : FirType) (p : FirPrecision) (h : Option (TapMemory num)) (n block batch : ℕ)
      → Ends
          (make_backend_plan ipp (fields t p h n block batch))
          (expected (fields t p h n block batch))
  unfolding make_backend_plan invalid_common get_size ipp_init
  backend-Ends t p none n block batch = (refl, refl)
  backend-Ends FirType.real FirPrecision.f32 (some h) n block batch =
      accepted-Ends (n == 0 || (block == 0 || batch == 0)) _ _ (typed-tested s32f_t32f _ h)
  backend-Ends FirType.real FirPrecision.f64 (some h) n block batch =
      accepted-Ends (n == 0 || (block == 0 || batch == 0)) _ _ (typed-tested s64f_t64f _ h)
  backend-Ends FirType.complex_real_taps FirPrecision.f32 (some h) n block batch =
      accepted-Ends (n == 0 || (block == 0 || batch == 0)) _ _ (typed-tested s32fc_t32f _ h)
  backend-Ends FirType.complex_real_taps FirPrecision.f64 (some h) n block batch = ground arith
  backend-Ends FirType.complex FirPrecision.f32 (some h) n block batch =
      accepted-Ends (n == 0 || (block == 0 || batch == 0)) _ _ (typed-tested s32fc_t32fc _ h)
  backend-Ends FirType.complex FirPrecision.f64 (some h) n block batch =
      accepted-Ends (n == 0 || (block == 0 || batch == 0)) _ _ (typed-tested s64fc_t64fc _ h)

  -- Creation fails with InvalidArgument for null taps or a count of 0; else with UnsupportedConfig
  -- for complex doubles with real taps, and for a number of taps or a block above the range of
  -- `int`. Otherwise it asks IPP for the sizes of this kind of filter, and fails with what a caller
  -- is told of an error, or with BackendError for sizes that cannot be allocated; and it ends with
  -- what a caller is told of the initialisation. A plan is there exactly when it ends with Ok.
  pub ipp-create_status :
      (cfg : FirPlanConfig num)
      → ((create (make_backend_plan ipp cfg)).status ≡ expected cfg)
        × (is_null (create (make_backend_plan ipp cfg)).value
            ≡ (if is_ok (expected cfg) then false else true))
  ipp-create_status cfg =
      create-Ends (make_backend_plan ipp cfg) (expected cfg)
        (backend-Ends cfg.type cfg.precision cfg.taps cfg.tap_count cfg.block_size cfg.batch)
