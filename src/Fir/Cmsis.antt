-- ===== src/Fir/Cmsis.antt =====
-- src/backends/cmsis/cmsis_fir_backend.cpp, the FIR filter over CMSIS-DSP. Children prove its
-- properties.
pub mod Create
pub mod Start
pub mod Stream
pub mod Plan
pub mod Examples
mod Tests
use dsp_dispatch.Base.{
  ℕ, ◌+◌, ◌-◌, ◌^◌, ◌%◌, ltb, if◌then◌else◌, Bool, true, false, none, some, add_size, sub_size,
  mul_size, Memory, Vector, store, copy, assign, for_range,
}
use dsp_dispatch.Base.Int.{to_uint}
use dsp_dispatch.Base.Cpp.{CppType, Numbers, size_of}
use dsp_dispatch.Fir.Types.{
  Status, FirPrecision, FirType, TapMemory, FirPlanConfig, Result, of_value, of_status,
  invalid_common,
}
use dsp_dispatch.Fir.Plan.{BackendPlan}

-- The type `T` of the samples and the taps.
abbrev pub element : FirPrecision → CppType
element FirPrecision.f32 = CppType.float
element FirPrecision.f64 = CppType.double

-- What the backend calls of arm_math.h, for elements `T`: the initialisation of an instance, from
-- the number of taps, the coefficients, the state buffer and the block size, which gives the
-- instance and what it leaves in the state buffer; and a run, from the instance, the coefficients and
-- the state buffer that it points to, the source and the number of samples, which gives what it
-- writes to the destination and what it leaves in the state buffer.
pub record ArmFir (T : Type 0) : Type 1 where
  pub Instance : Type 0
  pub blank : Instance
  pub size : ℕ
  pub fir_init : (taps : ℕ) → (coeffs state : ℕ → T) → (block : ℕ) → Instance × (ℕ → T)
  pub fir : Instance → (coeffs state source : ℕ → T) → (block : ℕ) → (ℕ → T) × (ℕ → T)

-- `arm_fir_instance_f32` and `arm_fir_instance_f64`, with their functions
pub record ArmFirs (num : Numbers) : Type 1 where
  pub f32 : ArmFir (num.Value CppType.float)
  pub f64 : ArmFir (num.Value CppType.double)

-- `CmsisTraits<T>`
abbrev pub cmsis_traits :
    {num : Numbers} → ArmFirs num → (p : FirPrecision) → ArmFir (num.Value (element p))
cmsis_traits arm FirPrecision.f32 = arm.f32
cmsis_traits arm FirPrecision.f64 = arm.f64

-- `CmsisFirState::state_len`
unfoldable pub state_len_of : (tap_count block_size : ℕ) → ℕ
state_len_of tap_count block_size = sub_size (add_size tap_count block_size) 1

module _ {T : Type 0} (arm : ArmFir T) where
  -- `CmsisFirState<T>`
  pub record CmsisFirState : Type 0 where
    pub block_size : ℕ
    pub batch : ℕ
    pub tap_count : ℕ
    pub coeffs : Vector T
    pub state : Vector T
    pub inst : Vector arm.Instance

  -- What a loop over the instances changes.
  pub record Work : Type 0 where
    pub state : Vector T
    pub memory : Memory T

  abbrev pub state_len : CmsisFirState → ℕ
  state_len s = state_len_of s.tap_count s.block_size

  -- a round of the loop of `cmsis_execute`
  unfoldable pub channel : CmsisFirState → (input output b : ℕ) → Work → Work
  channel s input output b w =
      let off = mul_size b s.block_size in
      let slice = mul_size b (state_len s) in
      let block = to_uint s.block_size in
      let (out, left) =
        arm.fir (s.inst.at b) s.coeffs.at (λ j. w.state.at (slice + j))
          (λ j. w.memory (input + off + j)) block in
      record {
        state = record w.state { at = copy (state_len s) left slice w.state.at };
        memory = copy block out (output + off) w.memory;
      }

  unfoldable pub cmsis_execute :
      CmsisFirState → (input output : ℕ) → Memory T → Status × CmsisFirState × Memory T
  cmsis_execute s input output mem =
      let w =
        for_range s.batch 0 (channel s input output) (record { state = s.state; memory = mem }) in
      (Status.ok, record s { state = w.state }, w.memory)

  unfoldable pub cmsis_clear : (zero : T) → CmsisFirState → Status × CmsisFirState
  cmsis_clear zero s =
      (Status.ok, record s { state = record { size = s.state.size; at = λ _. zero } })

  -- `cmsis_destroy`. It frees the state, which no caller's buffer is part of.
  unfoldable pub cmsis_destroy : CmsisFirState → Memory T → Memory T
  cmsis_destroy s mem = mem

  -- The loop that stores the taps in the reverse order.
  unfoldable pub reversed_taps : (zero : T) → (tap_count : ℕ) → (ℕ → T) → Vector T
  reversed_taps zero tap_count taps =
      for_range tap_count 0
        (λ i v. record v { at = store v.at i (taps (sub_size (sub_size tap_count 1) i)) })
        (assign tap_count zero)

  -- a round of the loop that initialises the instances
  unfoldable pub init_round : (block_size tap_count : ℕ) → (b : ℕ) → CmsisFirState → CmsisFirState
  init_round block_size tap_count b s =
      let slice = mul_size b (state_len s) in
      let (i, left) =
        arm.fir_init (tap_count % 2 ^ 16) s.coeffs.at (λ j. s.state.at (slice + j))
          (to_uint block_size) in
      record s {
        inst = record s.inst { at = store s.inst.at b i };
        state = record s.state { at = copy (state_len s) left slice s.state.at };
      }

  -- The state that `make_typed` fills in.
  unfoldable pub new_state : (zero : T) → (block_size batch tap_count : ℕ) → (ℕ → T) → CmsisFirState
  new_state zero block_size batch tap_count taps =
      for_range batch 0 (init_round block_size tap_count) (record {
        block_size = block_size;
        batch = batch;
        tap_count = tap_count;
        coeffs = reversed_taps zero tap_count taps;
        state = assign (mul_size batch (state_len_of tap_count block_size)) zero;
        inst = assign batch arm.blank;
      })

module _ {num : Numbers} (arms : ArmFirs num) (p : FirPrecision) where
  open num use {Value}

  abbrev pub plan_of :
      CmsisFirState (cmsis_traits arms p) → BackendPlan (Memory (Value (element p)))
  plan_of s = record {
    State = CmsisFirState (cmsis_traits arms p);
    state = s;
    execute = cmsis_execute (cmsis_traits arms p);
    clear = cmsis_clear (cmsis_traits arms p) (num.zero (element p));
    destroy = cmsis_destroy (cmsis_traits arms p);
    workspace_bytes =
        add_size (mul_size (add_size s.coeffs.size s.state.size) (size_of (element p)))
          (mul_size s.inst.size (cmsis_traits arms p).size);
    name = "cmsis";
  }

  -- `make_typed<T>`
  unfoldable pub make_typed :
      FirPlanConfig num → TapMemory num → Result (BackendPlan (Memory (Value (element p))))
  make_typed cfg taps =
      if ltb 65535 cfg.tap_count
      then of_status Status.unsupported_config
      else if ltb (2 ^ 32 - 1) cfg.block_size
      then of_status Status.unsupported_config
      else of_value (
          plan_of (
            new_state (cmsis_traits arms p) (num.zero (element p)) cfg.block_size cfg.batch
              cfg.tap_count (taps (element p))))

-- `cfg.type != FirType::Real`
abbrev pub is_real : FirType → Bool
is_real FirType.real = true
is_real _ = false

-- `make_backend_plan`. A null pointer has been refused before the taps are read.
unfoldable pub make_backend_plan :
    {num : Numbers} (arms : ArmFirs num) (cfg : FirPlanConfig num)
    → Result (BackendPlan (Memory (num.Value (element cfg.precision))))
make_backend_plan {num} arms cfg =
    if invalid_common num cfg
    then of_status Status.invalid_argument
    else if is_real cfg.type
    then elim cfg.taps [
      | none ↦ of_status Status.invalid_argument
      | some taps ↦ make_typed arms cfg.precision cfg taps
    ]
    else of_status Status.unsupported_config
