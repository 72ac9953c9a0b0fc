-- ===== src/Fir/Types.antt =====
-- include/fir/fir.h: statuses, configurations and the status-or-value result.
use dsp_dispatch.Base.{ℕ, ◌||◌, Bool, true, false, Option, none, some, String, ◌==◌}
use dsp_dispatch.Base.Cpp.{CppType, Numbers}

pub data Status : Type 0 where
  ok null_pointer invalid_argument unsupported_config backend_error : Status

pub data FirPrecision : Type 0 where
  f32 f64 : FirPrecision

pub data FirType : Type 0 where
  real complex_real_taps complex : FirType

unfoldable pub to_string : Status → String
to_string Status.ok = "Ok"
to_string Status.null_pointer = "NullPointer"
to_string Status.invalid_argument = "InvalidArgument"
to_string Status.unsupported_config = "UnsupportedConfig"
to_string Status.backend_error = "BackendError"

-- `status == Status::Ok`
abbrev pub is_ok : Status → Bool
is_ok Status.ok = true
is_ok _ = false

-- `Result<T>`: the constructor from a value sets the status to Ok, the one from a status leaves the
-- optional empty.
pub record Result {ℓ} (A : Type ℓ) : Type ℓ where
  pub status : Status
  pub value : Option A

module _ {ℓ} {A : Type ℓ} where
  abbrev pub of_value : A → Result A
  of_value a = record { status = Status.ok; value = some a }

  abbrev pub of_status : Status → Result A
  of_status s = record { status = s; value = none }

  -- `Result::ok()`
  abbrev pub succeeded : Result A → Bool
  succeeded r = is_ok r.status

-- `p == nullptr`
abbrev pub is_null {ℓ} : {A : Type ℓ} → Option A → Bool
is_null none = true
is_null (some _) = false

-- What `const void* taps` points to, read at each type that it may be cast to.
abbrev pub TapMemory : Numbers → Type 0
TapMemory num = (t : CppType) → ℕ → num.Value t

module _ (num : Numbers) where
  pub record FirPlanConfig : Type 0 where
    pub type : FirType
    pub precision : FirPrecision
    pub taps : Option (TapMemory num)
    pub tap_count : ℕ
    pub block_size : ℕ
    pub batch : ℕ

  -- `invalid_common`, which every FIR backend declares for itself with this text
  unfoldable pub invalid_common : FirPlanConfig → Bool
  invalid_common cfg =
      is_null cfg.taps || (cfg.tap_count == 0 || (cfg.block_size == 0 || cfg.batch == 0))
