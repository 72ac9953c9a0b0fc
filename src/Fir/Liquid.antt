-- ===== src/Fir/Liquid.antt =====
-- src/backends/liquid/liquid_fir_backend.cpp, the FIR filter over liquid-dsp. Children prove its
-- properties.
pub mod Plan
pub mod Live
mod Tests
use dsp_dispatch.Base.{
  ℕ, suc, ◌-◌, ◌^◌, ltb, if◌then◌else◌, not, Bool, true, false, none, some, mul_size, for_range,
  ◌≡◌, refl,
}
use dsp_dispatch.Base.Int.{to_uint}
use dsp_dispatch.Base.Machine.{Machine}
use dsp_dispatch.Base.Cpp.{CppType, Numbers, size_of}
use dsp_dispatch.Fir.Types.{
  Status, FirPrecision, FirType, TapMemory, FirPlanConfig, Result, of_value, of_status,
  invalid_common,
}
use dsp_dispatch.Fir.Plan.{BackendPlan}
use dsp_dispatch.Fir.Bank.{Filter, Bank, new_filters, run_bank, reset_bank}

-- The sample and the tap type of the three kinds of filter objects.
abbrev pub sample_of : FirType → CppType
sample_of FirType.real = CppType.float
sample_of FirType.complex_real_taps = CppType.complex_float
sample_of FirType.complex = CppType.complex_float

abbrev pub tap_of : FirType → CppType
tap_of FirType.real = CppType.float
tap_of FirType.complex_real_taps = CppType.float
tap_of FirType.complex = CppType.complex_float

-- What the backend calls of liquid.h: the objects `firfilt_rrrf`, `firfilt_crcf`, `firfilt_cccf`.
pub record Liquid (num : Numbers) : Type 1 where
  pub rrrf : Filter (num.Value CppType.float) (num.Value CppType.float)
  pub crcf : Filter (num.Value CppType.complex_float) (num.Value CppType.float)
  pub cccf : Filter (num.Value CppType.complex_float) (num.Value CppType.complex_float)

-- What the source has once for each kind of object, in the same words.
module _ {A T : Type 0} (filter : Filter A T) where
  -- a constructor of a state
  unfoldable pub new_state : (block_size batch tap_count : ℕ) → (ℕ → T) → Bank filter
  new_state block_size batch tap_count taps = record {
    block_size = block_size;
    batch = batch;
    filters = new_filters filter batch taps (to_uint tap_count);
  }

  unfoldable pub liquid_execute :
      Bank filter → (input output : ℕ) → Machine A → Status × Bank filter × Machine A
  liquid_execute s input output m =
      let (s', memory) = run_bank filter s (to_uint s.block_size) input output m.memory in
      (Status.ok, s', record m { memory = memory })

  unfoldable pub liquid_clear : Bank filter → Status × Bank filter
  liquid_clear s = (Status.ok, reset_bank filter s)

  -- `for (auto q : s->filters) destroy(q)`, and the state itself
  unfoldable pub liquid_destroy : Bank filter → Machine A → Machine A
  liquid_destroy s m = record m { live = for_range s.filters.size 0 (λ i live. live - 1) m.live }

  -- What a case of the switch fills in, at any kind of object.
  abbrev pub plan_of : (workspace_bytes : ℕ) → Bank filter → BackendPlan (Machine A)
  plan_of workspace_bytes s = record {
    State = Bank filter;
    state = s;
    execute = liquid_execute;
    clear = liquid_clear;
    destroy = liquid_destroy;
    workspace_bytes = workspace_bytes;
    name = "liquid";
  }

module _ {num : Numbers} (liquid : Liquid num) where
  open num use {Value}

  abbrev pub filter_of : (t : FirType) → Filter (Value (sample_of t)) (Value (tap_of t))
  filter_of FirType.real = liquid.rrrf
  filter_of FirType.complex_real_taps = liquid.crcf
  filter_of FirType.complex = liquid.cccf

  -- `LiquidRealState` with its constructor and its three functions
  abbrev pub LiquidRealState : Type 0
  LiquidRealState = Bank liquid.rrrf

  abbrev pub new_liquid_real : FirPlanConfig num → TapMemory num → LiquidRealState
  new_liquid_real cfg taps =
      new_state liquid.rrrf cfg.block_size cfg.batch cfg.tap_count (taps CppType.float)

  abbrev pub liquid_real_execute :
      LiquidRealState
      → (input output : ℕ) → Machine (Value CppType.float)
      → Status × LiquidRealState × Machine (Value CppType.float)
  liquid_real_execute = liquid_execute liquid.rrrf

  abbrev pub liquid_real_clear : LiquidRealState → Status × LiquidRealState
  liquid_real_clear = liquid_clear liquid.rrrf

  abbrev pub liquid_real_destroy :
      LiquidRealState → Machine (Value CppType.float) → Machine (Value CppType.float)
  liquid_real_destroy = liquid_destroy liquid.rrrf

  -- `LiquidComplexRealTapsState` with its constructor and its three functions
  abbrev pub LiquidComplexRealTapsState : Type 0
  LiquidComplexRealTapsState = Bank liquid.crcf

  abbrev pub new_liquid_cr : FirPlanConfig num → TapMemory num → LiquidComplexRealTapsState
  new_liquid_cr cfg taps =
      new_state liquid.crcf cfg.block_size cfg.batch cfg.tap_count (taps CppType.float)

  abbrev pub liquid_cr_execute :
      LiquidComplexRealTapsState
      → (input output : ℕ) → Machine (Value CppType.complex_float)
      → Status × LiquidComplexRealTapsState × Machine (Value CppType.complex_float)
  liquid_cr_execute = liquid_execute liquid.crcf

  abbrev pub liquid_cr_clear : LiquidComplexRealTapsState → Status × LiquidComplexRealTapsState
  liquid_cr_clear = liquid_clear liquid.crcf

  abbrev pub liquid_cr_destroy :
      LiquidComplexRealTapsState
      → Machine (Value CppType.complex_float)
      → Machine (Value CppType.complex_float)
  liquid_cr_destroy = liquid_destroy liquid.crcf

  -- `LiquidComplexState` with its constructor and its three functions
  abbrev pub LiquidComplexState : Type 0
  LiquidComplexState = Bank liquid.cccf

  abbrev pub new_liquid_complex : FirPlanConfig num → TapMemory num → LiquidComplexState
  new_liquid_complex cfg taps =
      new_state liquid.cccf cfg.block_size cfg.batch cfg.tap_count (taps CppType.complex_float)

  abbrev pub liquid_complex_execute :
      LiquidComplexState
      → (input output : ℕ) → Machine (Value CppType.complex_float)
      → Status × LiquidComplexState × Machine (Value CppType.complex_float)
  liquid_complex_execute = liquid_execute liquid.cccf

  abbrev pub liquid_complex_clear : LiquidComplexState → Status × LiquidComplexState
  liquid_complex_clear = liquid_clear liquid.cccf

  abbrev pub liquid_complex_destroy :
      LiquidComplexState
      → Machine (Value CppType.complex_float)
      → Machine (Value CppType.complex_float)
  liquid_complex_destroy = liquid_destroy liquid.cccf

  -- What a case of the switch fills in.
  abbrev pub typed_plan :
      (t : FirType)
      → FirPlanConfig num
      → TapMemory num
      → BackendPlan (Machine (Value (sample_of t)))
  typed_plan FirType.real cfg taps = record {
    State = LiquidRealState;
    state = new_liquid_real cfg taps;
    execute = liquid_real_execute;
    clear = liquid_real_clear;
    destroy = liquid_real_destroy;
    workspace_bytes = mul_size (mul_size cfg.batch cfg.tap_count) (size_of CppType.float);
    name = "liquid";
  }
  typed_plan FirType.complex_real_taps cfg taps = record {
    State = LiquidComplexRealTapsState;
    state = new_liquid_cr cfg taps;
    execute = liquid_cr_execute;
    clear = liquid_cr_clear;
    destroy = liquid_cr_destroy;
    workspace_bytes = mul_size (mul_size cfg.batch cfg.tap_count) (size_of CppType.complex_float);
    name = "liquid";
  }
  typed_plan FirType.complex cfg taps = record {
    State = LiquidComplexState;
    state = new_liquid_complex cfg taps;
    execute = liquid_complex_execute;
    clear = liquid_complex_clear;
    destroy = liquid_complex_destroy;
    workspace_bytes = mul_size (mul_size cfg.batch cfg.tap_count) (size_of CppType.complex_float);
    name = "liquid";
  }

  -- The three cases are one, at the filter objects of the type.
  pub typed_plan_lem :
      (t : FirType) (cfg : FirPlanConfig num) (taps : TapMemory num)
      → typed_plan t cfg taps
        ≡ plan_of
            (filter_of t)
            (mul_size (mul_size cfg.batch cfg.tap_count) (size_of (sample_of t)))
            (new_state (filter_of t) cfg.block_size cfg.batch cfg.tap_count (taps (tap_of t)))
  typed_plan_lem FirType.real cfg taps = refl
  typed_plan_lem FirType.complex_real_taps cfg taps = refl
  typed_plan_lem FirType.complex cfg taps = refl

  -- A case of the switch, with how many objects are live after it.
  unfoldable pub make_typed :
      (t : FirType)
      → FirPlanConfig num
      → TapMemory num
      → ℕ
      → Result (BackendPlan (Machine (Value (sample_of t)))) × ℕ
  make_typed t cfg taps live =
      (of_value (typed_plan t cfg taps), for_range cfg.batch 0 (λ i live. suc live) live)

abbrev pub is_f32 : FirPrecision → Bool
is_f32 FirPrecision.f32 = true
is_f32 FirPrecision.f64 = false

-- `make_backend_plan`. A null pointer has been refused before the taps are read.
unfoldable pub make_backend_plan :
    {num : Numbers} (liquid : Liquid num) (cfg : FirPlanConfig num)
    → ℕ
    → Result (BackendPlan (Machine (num.Value (sample_of cfg.type)))) × ℕ
make_backend_plan {num} liquid cfg live =
    if invalid_common num cfg
    then (of_status Status.invalid_argument, live)
    else if not (is_f32 cfg.precision)
    then (of_status Status.unsupported_config, live)
    else if ltb (2 ^ 32 - 1) cfg.tap_count
    then (of_status Status.invalid_argument, live)
    else if ltb (2 ^ 32 - 1) cfg.block_size
    then (of_status Status.invalid_argument, live)
    else elim cfg.taps [
      | none ↦ (of_status Status.invalid_argument, live)
      | some taps ↦ make_typed liquid cfg.type cfg taps live
    ]
