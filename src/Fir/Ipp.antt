-- ===== src/Fir/Ipp.antt =====
-- src/backends/ipp/ipp_fir_backend.cpp, the FIR filter over Intel IPP. Children prove its properties.
pub mod Library
pub mod Create
pub mod Stream
pub mod Plan
mod Tests
unfoldable pub use Library.*
use dsp_dispatch.Base.{
  ℕ, zero, suc, ◌+◌, ◌-◌, ◌*◌, ◌^◌, ltb, if◌then◌else◌, ◌==◌, ◌||◌, Bool, Option, none, some,
  add_size, mul_size, Memory, Vector, copy, assign,
}
use dsp_dispatch.Base.Int.{is_nonpositive, is_negative, to_size}
use dsp_dispatch.Base.Cpp.{CppType, Numbers, size_of}
use dsp_dispatch.Fir.Types.{
  Status, FirPrecision, FirType, TapMemory, FirPlanConfig, Result, of_value, of_status,
  invalid_common, is_ok,
}
use dsp_dispatch.Fir.Plan.{BackendPlan}

-- `map_status`
unfoldable pub map_status : IppStatus → Status
map_status no_err = Status.ok
map_status null_ptr_err = Status.null_pointer
map_status fir_len_err = Status.invalid_argument
map_status size_err = Status.invalid_argument
map_status alg_type_err = Status.unsupported_config
map_status (other _) = Status.backend_error

-- `exceeds_int`
abbrev pub exceeds_int : ℕ → Bool
exceeds_int v = ltb (2 ^ 31 - 1) v

module _ {num : Numbers} (ipp : Ipp num) {sample tap : CppType} (k : Special sample tap) where
  open num use {Value}

  -- `IppFirState<Sample, Tap>`
  pub record IppFirState : Type 0 where
    pub block_size : ℕ
    pub batch : ℕ
    pub tap_count : ℕ
    pub spec : ipp.Spec
    pub spec_size : ℕ
    pub work : ipp.Buffer
    pub work_size : ℕ
    pub delay_a : Vector (Value sample)
    pub delay_b : Vector (Value sample)

  -- `ptr_or_null`
  abbrev pub ptr_or_null : Vector (Value sample) → ℕ → Option (ℕ → Value sample)
  ptr_or_null v offset = if v.size == 0 then none else some (λ j. v.at (offset + j))

  -- What the rounds of the loop change.
  pub record Work : Type 0 where
    pub work : ipp.Buffer
    pub delay_b : Vector (Value sample)
    pub memory : Memory (Value sample)

module _ {num : Numbers} {ipp : Ipp num} {sample tap : CppType} {k : Special sample tap} where
  open num use {Value}

  abbrev pub delay_len : IppFirState ipp k → ℕ
  delay_len s = s.tap_count - 1

  module _ (s : IppFirState ipp k) where
    -- one round of the loop over `b`: the call, with its status. (A null destination delay line
    -- belongs to a delay length of 0, of which no cell is written.)
    unfoldable pub ipp_round : (input output b : ℕ) → Work ipp k → IppStatus × Work ipp k
    ipp_round input output b w =
        let offset = mul_size b s.block_size in
        let delay_off = mul_size b (delay_len s) in
        let (st, block, delay, work) =
          ipp_exec ipp k s.block_size s.spec (λ j. w.memory (input + offset + j))
            (ptr_or_null ipp k s.delay_a delay_off) w.work in
        (
          st,
          record {
            work = work;
            delay_b = record w.delay_b { at = copy (delay_len s) delay delay_off w.delay_b.at };
            memory = copy s.block_size block (output + offset) w.memory;
          },
        )

    -- the loop, which returns at the first status other than Ok
    unfoldable pub ipp_rounds : (rounds : ℕ) (input output b : ℕ) → Work ipp k → Status × Work ipp k
    ipp_rounds zero input output b w = (Status.ok, w)
    ipp_rounds (suc n) input output b w =
        let (st, w') = ipp_round input output b w in
        let rest = ipp_rounds n input output (suc b) w' in
        if is_ok (map_status st) then rest else (map_status st, w')

  -- `ipp_execute`
  unfoldable pub ipp_execute :
      IppFirState ipp k
      → (input output : ℕ) → Memory (Value sample)
      → Status × IppFirState ipp k × Memory (Value sample)
  ipp_execute s input output mem =
      let (st, w) =
        ipp_rounds s s.batch input output 0
          (record { work = s.work; delay_b = s.delay_b; memory = mem }) in
      let left : IppFirState ipp k = record s { work = w.work; delay_b = w.delay_b } in
      if is_ok st
      then (Status.ok, record left { delay_a = left.delay_b; delay_b = left.delay_a }, w.memory)
      else (st, left, w.memory)

  -- `ipp_clear`
  unfoldable pub ipp_clear : IppFirState ipp k → Status × IppFirState ipp k
  ipp_clear s = (
    Status.ok,
    record s {
      delay_a = record { size = s.delay_a.size; at = λ _. num.zero sample };
      delay_b = record { size = s.delay_b.size; at = λ _. num.zero sample };
    },
  )

  -- `ipp_destroy`. It frees the state, which no caller's buffer is part of.
  unfoldable pub ipp_destroy : IppFirState ipp k → Memory (Value sample) → Memory (Value sample)
  ipp_destroy s mem = mem

module _ {num : Numbers} (ipp : Ipp num) {sample tap : CppType} (k : Special sample tap) where
  open num use {Value}

  -- The state that `make_typed` fills in, once the sizes are known.
  unfoldable pub ipp_state :
      FirPlanConfig num → (spec_size work_size : ℕ) → ipp.Spec → IppFirState ipp k
  ipp_state cfg spec_size work_size spec = record {
    block_size = cfg.block_size;
    batch = cfg.batch;
    tap_count = cfg.tap_count;
    spec = spec;
    spec_size = spec_size;
    work = ipp.buffer work_size;
    work_size = work_size;
    delay_a = assign (mul_size cfg.batch (cfg.tap_count - 1)) (num.zero sample);
    delay_b = assign (mul_size cfg.batch (cfg.tap_count - 1)) (num.zero sample);
  }

  abbrev pub plan_of : IppFirState ipp k → BackendPlan (Memory (Value sample))
  plan_of s = record {
    State = IppFirState ipp k;
    state = s;
    execute = ipp_execute;
    clear = ipp_clear;
    destroy = ipp_destroy;
    workspace_bytes =
        add_size (add_size s.spec_size s.work_size)
          (mul_size (add_size s.delay_a.size s.delay_b.size) (size_of sample));
    name = "ipp";
  }

  -- `make_typed<Sample, Tap>`
  unfoldable pub make_typed :
      FirPlanConfig num → TapMemory num → Result (BackendPlan (Memory (Value sample)))
  make_typed cfg taps =
      if exceeds_int cfg.tap_count || exceeds_int cfg.block_size
      then of_status Status.unsupported_config
      else let (st, spec_size, work_size) = get_size ipp k cfg.tap_count in
        let (st', spec) = ipp_init ipp k (taps tap) cfg.tap_count (ipp.blank (to_size spec_size)) in
        if is_ok (map_status st)
        then (if is_nonpositive spec_size || is_negative work_size
            then of_status Status.backend_error
            else if is_ok (map_status st')
            then of_value (plan_of (ipp_state cfg (to_size spec_size) (to_size work_size) spec))
            else of_status (map_status st'))
        else of_status (map_status st)

-- The template arguments that the nested switch of `make_backend_plan` chooses, where it offers any.
abbrev pub sample_type : FirPrecision → FirType → CppType
sample_type FirPrecision.f32 FirType.real = CppType.float
sample_type FirPrecision.f32 _ = CppType.complex_float
sample_type FirPrecision.f64 FirType.real = CppType.double
sample_type FirPrecision.f64 _ = CppType.complex_double

abbrev pub special :
    (p : FirPrecision) (t : FirType) → Option ((tap : CppType) × Special (sample_type p t) tap)
special FirPrecision.f32 FirType.real = some (CppType.float, s32f_t32f)
special FirPrecision.f32 FirType.complex_real_taps = some (CppType.float, s32fc_t32f)
special FirPrecision.f32 FirType.complex = some (CppType.complex_float, s32fc_t32fc)
special FirPrecision.f64 FirType.real = some (CppType.double, s64f_t64f)
special FirPrecision.f64 FirType.complex_real_taps = none
special FirPrecision.f64 FirType.complex = some (CppType.complex_double, s64fc_t64fc)

-- `make_backend_plan`. A null pointer has been refused before the taps are read.
unfoldable pub make_backend_plan :
    {num : Numbers} (ipp : Ipp num) (cfg : FirPlanConfig num)
    → Result (BackendPlan (Memory (num.Value (sample_type cfg.precision cfg.type))))
make_backend_plan {num} ipp cfg =
    if invalid_common num cfg then of_status Status.invalid_argument else elim cfg.taps [
      | none ↦ of_status Status.invalid_argument
      | some taps ↦ elim (special cfg.precision cfg.type) [
        | none ↦ of_status Status.unsupported_config
        | some (tap, k) ↦ make_typed ipp k cfg taps
      ]
    ]
