-- ===== src/Fft/Mkl.antt =====
-- src/backends/mkl/mkl_backend.cpp, the FFT over the DFTI interface of Intel oneMKL. Children prove
-- its properties.
pub mod Create
pub mod Settings
pub mod View
pub mod Plan
mod Tests
use dsp_dispatch.Base.{
  ℕ, zero, suc, ◌-◌, ◌/◌, ◌+◌, if◌then◌else◌, Bool, true, false, not, ◌||◌, none, some, Memory,
}
use dsp_dispatch.Base.Int.{ℤ, pos, negsuc}
use dsp_dispatch.Base.Machine.{Machine}
use dsp_dispatch.Fft.Types.{
  Status, FftType, FftPrecision, FftPlanConfig, Result, of_value, of_status, resolve, is_empty,
}
use dsp_dispatch.Fft.Plan.{BackendPlan}

-- The values of DFTI parameters that the backend names.
pub data DftiConfigValue : Type 0 where
  single double complex real not_inplace complex_complex : DftiConfigValue

-- A parameter of DftiSetValue with its value. A MKL_LONG is kept as its 64 bits.
pub data Setting (Double : Type 0) : Type 0 where
  placement : DftiConfigValue → Setting Double
  conjugate_even_storage : DftiConfigValue → Setting Double
  number_of_transforms : ℕ → Setting Double
  input_distance : ℕ → Setting Double
  output_distance : ℕ → Setting Double
  backward_scale : Double → Setting Double

-- What the backend calls of mkl_dfti.h, on memory of scalars `A`: the creation of a descriptor of one
-- dimension, from its precision, its domain and its length; the setting of a parameter; the
-- commitment; the two computations; and whether a status is of the class DFTI_NO_ERROR. A descriptor
-- is what stands behind a handle. `Double` is the compiler's `double`.
pub record Dfti (A : Type 0) : Type 1 where
  pub Double : Type 0
  pub one : Double
  pub div : Double → Double → Double
  pub of_size : ℕ → Double
  pub Descriptor : Type 0
  pub error_class : ℤ → Bool
  pub create_descriptor :
      (precision domain : DftiConfigValue) (dimension length : ℕ) → ℤ × Descriptor
  pub set_value : Setting Double → Descriptor → ℤ × Descriptor
  pub commit_descriptor : Descriptor → ℤ × Descriptor
  pub compute_forward : Descriptor → (input output : ℕ) → Memory A → ℤ × Memory A
  pub compute_backward : Descriptor → (input output : ℕ) → Memory A → ℤ × Memory A

-- `status == 0`
abbrev pub is_zero : ℤ → Bool
is_zero (pos zero) = true
is_zero (pos (suc _)) = false
is_zero (negsuc _) = false

-- The switch over the type: the domain and the distances. (The direction is chosen as in every
-- backend.)
abbrev pub domain_of : FftType → DftiConfigValue
domain_of FftType.complex = DftiConfigValue.complex
domain_of _ = DftiConfigValue.real

abbrev pub in_dist : FftType → ℕ → ℕ
in_dist FftType.complex_to_real n = n / 2 + 1
in_dist _ n = n

abbrev pub out_dist : FftType → ℕ → ℕ
out_dist FftType.real_to_complex n = n / 2 + 1
out_dist _ n = n

-- `prec`
abbrev pub prec_of : FftPrecision → DftiConfigValue
prec_of FftPrecision.f64 = DftiConfigValue.double
prec_of FftPrecision.f32 = DftiConfigValue.single

-- `domain == DFTI_REAL`
abbrev pub is_real : DftiConfigValue → Bool
is_real DftiConfigValue.real = true
is_real _ = false

module _ {A : Type 0} (dfti : Dfti A) where
  open dfti use {Double, Descriptor}

  -- `dfti_ok`
  unfoldable pub dfti_ok : ℤ → Bool
  dfti_ok status = is_zero status || dfti.error_class status

  -- `MklState`. (Its handle is never null.)
  pub record MklState : Type 0 where
    pub handle : Descriptor
    pub inverse : Bool

  -- `mkl_execute`
  unfoldable pub mkl_execute :
      MklState → (input output : ℕ) → Machine A → Status × MklState × Machine A
  mkl_execute s input output m =
      let (st, memory) =
        if s.inverse
        then dfti.compute_backward s.handle input output m.memory
        else dfti.compute_forward s.handle input output m.memory in
      ((if dfti_ok st then Status.ok else Status.backend_error), s, record m { memory = memory })

  -- `mkl_destroy`, with `~MklState`
  unfoldable pub mkl_destroy : MklState → Machine A → Machine A
  mkl_destroy s m = record m { live = m.live - 1 }

  -- `ok = ok && dfti_ok(...)`, of a call that may change the descriptor
  unfoldable pub and_then : (Descriptor → ℤ × Descriptor) → Bool × Descriptor → Bool × Descriptor
  and_then call (ok, h) = let (st, h') = call h in if ok then (dfti_ok st, h') else (false, h)

  -- The calls between the creation of a descriptor and the test of `ok`.
  unfoldable pub configure : FftPlanConfig → (inverse : Bool) → Descriptor → Bool × Descriptor
  configure cfg inverse h =
      let placed = and_then (dfti.set_value (placement DftiConfigValue.not_inplace)) (true, h) in
      let stored =
        if is_real (domain_of cfg.type)
        then and_then (dfti.set_value (conjugate_even_storage DftiConfigValue.complex_complex))
            placed
        else placed in
      let counted = and_then (dfti.set_value (number_of_transforms cfg.batch)) stored in
      let read = and_then (dfti.set_value (input_distance (in_dist cfg.type cfg.length))) counted in
      let written =
        and_then (dfti.set_value (output_distance (out_dist cfg.type cfg.length))) read in
      let scaled =
        if inverse
        then and_then
            (dfti.set_value (backward_scale (dfti.div dfti.one (dfti.of_size cfg.length)))) written
        else written in
      and_then dfti.commit_descriptor scaled

  abbrev pub plan_of : MklState → BackendPlan (Machine A)
  plan_of s = record {
    State = MklState;
    state = s;
    execute = mkl_execute;
    destroy = mkl_destroy;
    workspace_bytes = 0;
    name = "mkl";
  }

  -- what follows the switch over the type
  unfoldable pub make_typed :
      FftPlanConfig → (inverse : Bool) → (live : ℕ) → Result (BackendPlan (Machine A)) × ℕ
  make_typed cfg inverse live =
      let (st, h) =
        dfti.create_descriptor (prec_of cfg.precision) (domain_of cfg.type) 1 cfg.length in
      let (ok, h') = configure cfg inverse h in
      if not (dfti_ok st)
      then (of_status Status.backend_error, live)
      else if not ok
      then (of_status Status.backend_error, suc live - 1)
      else (of_value (plan_of (record { handle = h'; inverse = inverse })), suc live)

  -- `make_backend_plan`, with how many descriptors are live after it
  unfoldable pub make_backend_plan :
      FftPlanConfig → (live : ℕ) → Result (BackendPlan (Machine A)) × ℕ
  make_backend_plan cfg live =
      if is_empty cfg
      then (of_status Status.invalid_argument, live)
      else elim (resolve cfg.type cfg.direction).value [
        | none ↦ (of_status (resolve cfg.type cfg.direction).status, live)
        | some inverse ↦ make_typed cfg inverse live
      ]
