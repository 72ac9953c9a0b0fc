-- ===== src/Fir/Kfr.antt =====
-- bench/backends/kfr/fir_kfr_backend.cpp, the FIR filter over KFR, which the benchmarks link. A child
-- proves its property.
pub mod Plan
mod Tests
use dsp_dispatch.Base.{
  ℕ, if◌then◌else◌, Bool, true, false, none, some, mul_size, Memory, Vector, store, assign,
  for_range,
}
use dsp_dispatch.Base.Cpp.{CppType, Numbers, size_of}
use dsp_dispatch.Fir.Types.{
  Status, FirPrecision, FirType, TapMemory, FirPlanConfig, Result, of_value, of_status,
  invalid_common,
}
use dsp_dispatch.Fir.Plan.{BackendPlan}
use dsp_dispatch.Fir.Bank.{Filter, Bank, new_filters, run_bank, reset_bank}

-- `cfg.type != FirType::Real || cfg.precision != FirPrecision::F32`
abbrev pub is_other : FirType → FirPrecision → Bool
is_other FirType.real FirPrecision.f32 = false
is_other _ _ = true

-- `kfr` stands for `kfr::filter_fir<float, float>`, which is made from a vector of taps.
module _ (num : Numbers) (kfr : Filter (num.Value CppType.float) (num.Value CppType.float)) where
  open num use {Value}

  -- The vector that the constructor copies the taps into.
  unfoldable pub copied_taps :
      (tap_count : ℕ) → (ℕ → Value CppType.float) → Vector (Value CppType.float)
  copied_taps tap_count in_taps =
      for_range tap_count 0 (λ i v. record v { at = store v.at i (in_taps i) })
        (assign tap_count (num.zero CppType.float))

  abbrev pub KfrRealState : Type 0
  KfrRealState = Bank kfr

  -- `KfrRealState::KfrRealState`
  unfoldable pub new_state : FirPlanConfig num → TapMemory num → KfrRealState
  new_state cfg in_taps =
      let taps = copied_taps cfg.tap_count (in_taps CppType.float) in
      record {
        block_size = cfg.block_size;
        batch = cfg.batch;
        filters = new_filters kfr cfg.batch taps.at taps.size;
      }

  unfoldable pub kfr_real_execute :
      KfrRealState
      → (input output : ℕ) → Memory (Value CppType.float)
      → Status × KfrRealState × Memory (Value CppType.float)
  kfr_real_execute s input output mem =
      let (s', mem') = run_bank kfr s s.block_size input output mem in (Status.ok, s', mem')

  unfoldable pub kfr_real_clear : KfrRealState → Status × KfrRealState
  kfr_real_clear s = (Status.ok, reset_bank kfr s)

  -- `kfr_real_destroy`. It frees the state with its filters, which no caller's buffer is part of.
  unfoldable pub kfr_real_destroy :
      KfrRealState → Memory (Value CppType.float) → Memory (Value CppType.float)
  kfr_real_destroy s mem = mem

  abbrev pub plan_of : FirPlanConfig num → KfrRealState → BackendPlan (Memory (Value CppType.float))
  plan_of cfg s = record {
    State = KfrRealState;
    state = s;
    execute = kfr_real_execute;
    clear = kfr_real_clear;
    destroy = kfr_real_destroy;
    workspace_bytes = mul_size (mul_size cfg.batch cfg.tap_count) (size_of CppType.float);
    name = "kfr";
  }

  -- `make_backend_plan`. A null pointer has been refused before the taps are read.
  unfoldable pub make_backend_plan :
      FirPlanConfig num → Result (BackendPlan (Memory (Value CppType.float)))
  make_backend_plan cfg =
      if invalid_common num cfg
      then of_status Status.invalid_argument
      else if is_other cfg.type cfg.precision
      then of_status Status.unsupported_config
      else elim cfg.taps [
        | none ↦ of_status Status.invalid_argument
        | some taps ↦ of_value (plan_of cfg (new_state cfg taps))
      ]
