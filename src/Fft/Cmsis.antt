-- ===== src/Fft/Cmsis.antt =====
-- src/backends/cmsis/cmsis_backend.cpp, the FFT over CMSIS-DSP. A child proves each transform.
pub mod Local
pub mod Complex
pub mod Real
pub mod Frame
pub mod RoundTrip
pub mod Create
mod Tests
pub mod Spectrum
use dsp_dispatch.Base.{
  ℕ, ◌+◌, ◌-◌, ◌*◌, ◌/◌, ltb, if◌then◌else◌, Bool, true, false, not, none, some, ◌%◌, ◌^◌,
  for_range, add_size, mul_size, Memory, Vector, store, copy, assign,
}
use dsp_dispatch.Fft.Types.{
  Status, FftType, FftPrecision, FftPlanConfig, Result, of_value, of_status, resolve, is_empty,
}
use dsp_dispatch.Fft.Plan.{BackendPlan}

-- What the backend calls of arm_math.h. An initialiser says whether it returned ARM_MATH_SUCCESS.
-- `cfft` transforms its buffer in place; `rfft` returns what it leaves in its source and what is in
-- its destination, whose old contents it is given.
pub record ArmMath : Type 1 where
  pub Float : Type 0
  pub zero : Float
  pub Cfft : Type 0
  pub Rfft : Type 0
  pub cfft_blank : Cfft
  pub rfft_blank : Rfft
  pub cfft_init : ℕ → Bool × Cfft
  pub rfft_init : ℕ → Bool × Rfft
  pub cfft : Cfft → (inverse : Bool) → (ℕ → Float) → ℕ → Float
  pub rfft : Rfft → (inverse : Bool) → (ℕ → Float) → (ℕ → Float) → (ℕ → Float) × (ℕ → Float)

pub record CmsisFftState (arm : ArmMath) : Type 0 where
  pub type : FftType
  pub n : ℕ
  pub batch : ℕ
  pub bins : ℕ
  pub inverse : Bool
  pub cfft : arm.Cfft
  pub rfft : arm.Rfft
  pub a : Vector arm.Float
  pub b : Vector arm.Float

-- What a round of a loop over the batch changes: the two buffers and the memory.
pub record Work {ℓ} (A : Type ℓ) : Type ℓ where
  pub a : Vector A
  pub b : Vector A
  pub memory : Memory A

module _ {ℓ} {A : Type ℓ} where
  -- `std::copy(mem + p, mem + p + n, v.data())`
  abbrev pub load : (n p : ℕ) → Memory A → Vector A → Vector A
  load n p mem v = record v { at = copy n (λ j. mem (p + j)) 0 v.at }

  -- `v[i] = x`
  abbrev pub set_at : Vector A → ℕ → A → Vector A
  set_at v i x = record v { at = store v.at i x }

module _ {arm : ArmMath} (s : CmsisFftState arm) where
  open arm use {Float}

  abbrev pub half : ℕ
  half = s.n / 2

  -- a round of case `Complex`
  unfoldable pub complex_round : (input output b : ℕ) → Work Float → Work Float
  complex_round input output b w =
      let bin = input + mul_size (mul_size b 2) s.n in
      let bout = output + mul_size (mul_size b 2) s.n in
      let loaded = load (mul_size 2 s.n) bin w.memory w.a in
      let transformed : Vector Float = record loaded { at = arm.cfft s.cfft s.inverse loaded.at } in
      record w { a = transformed; memory = copy (mul_size 2 s.n) transformed.at bout w.memory }

  -- the packed spectrum of CMSIS, spread over the bins of the public layout
  unfoldable pub unpack : (bout : ℕ) → (ℕ → Float) → Memory Float → Memory Float
  unpack bout packed mem =
      let ends =
        store
          (store (store (store mem bout (packed 0)) (bout + 1) arm.zero) (bout + 2 * half)
            (packed 1))
          (bout + (2 * half + 1)) arm.zero in
      for_range (half - 1) 1
        (λ k m.
          store (store m (bout + 2 * k) (packed (2 * k))) (bout + (2 * k + 1)) (packed (2 * k + 1)))
        ends

  -- a round of case `RealToComplex`
  unfoldable pub real_to_complex_round : (input output b : ℕ) → Work Float → Work Float
  real_to_complex_round input output b w =
      let bin = input + mul_size b s.n in
      let bout = output + mul_size (mul_size b 2) s.bins in
      let loaded = load s.n bin w.memory w.a in
      let (left, packed) = arm.rfft s.rfft false loaded.at w.b.at in
      record {
        a = record loaded { at = left };
        b = record { size = w.b.size; at = packed };
        memory = unpack bout packed w.memory;
      }

  -- the bins of the public layout, packed into the buffer of CMSIS
  unfoldable pub pack : (bin : ℕ) → Memory Float → Vector Float → Vector Float
  pack bin mem a =
      for_range (half - 1) 1
        (λ k v. set_at (set_at v (2 * k) (mem (bin + 2 * k))) (2 * k + 1) (mem (bin + (2 * k + 1))))
        (set_at (set_at a 0 (mem bin)) 1 (mem (bin + 2 * half)))

  -- a round of case `ComplexToReal`
  unfoldable pub complex_to_real_round : (input output b : ℕ) → Work Float → Work Float
  complex_to_real_round input output b w =
      let bin = input + mul_size (mul_size b 2) s.bins in
      let bout = output + mul_size b s.n in
      let packed = pack bin w.memory w.a in
      let (left, reals) = arm.rfft s.rfft true packed.at w.b.at in
      record {
        a = record packed { at = left };
        b = record { size = w.b.size; at = reals };
        memory = copy s.n reals bout w.memory;
      }

  abbrev pub round : FftType → (input output b : ℕ) → Work Float → Work Float
  round FftType.complex = complex_round
  round FftType.real_to_complex = real_to_complex_round
  round FftType.complex_to_real = complex_to_real_round

-- `cmsis_execute`
unfoldable pub cmsis_execute :
    {arm : ArmMath}
    → CmsisFftState arm
    → (input output : ℕ) → Memory arm.Float
    → Status × CmsisFftState arm × Memory arm.Float
cmsis_execute s input output mem =
    let w =
      for_range s.batch 0 (round s s.type input output)
        (record { a = s.a; b = s.b; memory = mem }) in
    (Status.ok, record s { a = w.a; b = w.b }, w.memory)

-- `cmsis_destroy`. It frees the state, which no caller's buffer is part of.
unfoldable pub cmsis_destroy :
    {arm : ArmMath} → CmsisFftState arm → Memory arm.Float → Memory arm.Float
cmsis_destroy s mem = mem

module _ (arm : ArmMath) where
  open arm use {Float}

  -- The two branches that initialise the instance and the buffers, with the status of the call.
  abbrev pub init_state : FftPlanConfig → (inverse : Bool) → (len : ℕ) → Bool × CmsisFftState arm
  init_state cfg inverse len = elim cfg.type [
    | FftType.complex ↦
        let (st, c) = arm.cfft_init len in
        (st, fresh c arm.rfft_blank (assign (mul_size 2 cfg.length) arm.zero) (assign 0 arm.zero))
    | _ ↦
        let (st, r) = arm.rfft_init len in
        (st, fresh arm.cfft_blank r (assign cfg.length arm.zero) (assign cfg.length arm.zero))
  ]
    where
      fresh : arm.Cfft → arm.Rfft → Vector Float → Vector Float → CmsisFftState arm
      fresh c r a b = record {
        type = cfg.type;
        n = cfg.length;
        batch = cfg.batch;
        bins = cfg.length / 2 + 1;
        inverse = inverse;
        cfft = c;
        rfft = r;
        a = a;
        b = b;
      }

  abbrev pub plan_of : Bool × CmsisFftState arm → Result (BackendPlan (Memory Float))
  plan_of (false, s) = of_status Status.unsupported_length
  plan_of (true, s) = of_value (record {
    State = CmsisFftState arm;
    state = s;
    execute = cmsis_execute;
    destroy = cmsis_destroy;
    workspace_bytes = mul_size (add_size s.a.size s.b.size) 4;
    name = "cmsis";
  })

  abbrev pub is_f32 : FftPrecision → Bool
  is_f32 FftPrecision.f32 = true
  is_f32 FftPrecision.f64 = false

  -- `make_backend_plan`
  unfoldable pub make_backend_plan : FftPlanConfig → Result (BackendPlan (Memory Float))
  make_backend_plan cfg =
      if is_empty cfg
      then of_status Status.invalid_argument
      else if not (is_f32 cfg.precision)
      then of_status Status.unsupported_config
      else elim (resolve cfg.type cfg.direction).value [
        | none ↦ of_status (resolve cfg.type cfg.direction).status
        | some inverse ↦
            if ltb 65535 cfg.length
            then of_status Status.unsupported_length
            else plan_of (init_state cfg inverse (cfg.length % 2 ^ 16))
      ]
