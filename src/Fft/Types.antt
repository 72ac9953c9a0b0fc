-- ===== src/Fft/Types.antt =====
-- include/fft/fft.h: statuses, configurations, the status-or-value result, and the bin count; and
-- the choice of the direction, which every FFT backend makes in the same words.
use dsp_dispatch.Base.{ℕ, ◌+◌, ◌/◌, ◌||◌, Bool, true, false, Option, none, some, String, ◌==◌}

pub data Status : Type 0 where
  ok null_pointer invalid_argument unsupported_length unsupported_config backend_error : Status

pub data FftDirection : Type 0 where
  forward inverse : FftDirection

pub data FftType : Type 0 where
  complex real_to_complex complex_to_real : FftType

pub data FftPrecision : Type 0 where
  f32 f64 : FftPrecision

unfoldable pub to_string : Status → String
to_string Status.ok = "Ok"
to_string Status.null_pointer = "NullPointer"
to_string Status.invalid_argument = "InvalidArgument"
to_string Status.unsupported_length = "UnsupportedLength"
to_string Status.unsupported_config = "UnsupportedConfig"
to_string Status.backend_error = "BackendError"

-- `status == Status::Ok`
abbrev pub is_ok : Status → Bool
is_ok Status.ok = true
is_ok _ = false

pub record FftPlanConfig : Type 0 where
  pub type : FftType
  pub precision : FftPrecision
  pub length : ℕ
  pub batch : ℕ
  pub direction : FftDirection

-- `Result<T>`: the constructor from a value sets the status to Ok, the one from a status leaves the
-- optional empty.
pub record Result {ℓ} (A : Type ℓ) : Type ℓ where
  pub status : Status
  pub value : Option A

module _ {ℓ} {A : Type ℓ} where
  abbrev pub of_value : A → Result A
  of_value a = record { status = Status.ok; value = some a }

  abbrev pub of_status : Status → Result A
  of_status s = record { status = s; value = none }

  -- `Result::ok()`
  abbrev pub succeeded : Result A → Bool
  succeeded r = is_ok r.status

-- `real_complex_bins`
abbrev pub real_complex_bins : ℕ → ℕ
real_complex_bins length = length / 2 + 1

-- `direction == FftDirection::Inverse`
abbrev pub is_inverse : FftDirection → Bool
is_inverse FftDirection.inverse = true
is_inverse FftDirection.forward = false

-- The switch over `type` that sets `inverse`, or returns the status with which it leaves.
abbrev pub resolve : FftType → FftDirection → Result Bool
resolve FftType.complex d = of_value (is_inverse d)
resolve FftType.real_to_complex FftDirection.inverse = of_status Status.invalid_argument
resolve FftType.real_to_complex FftDirection.forward = of_value false
resolve FftType.complex_to_real _ = of_value true

-- `cfg.length == 0 || cfg.batch == 0`
abbrev pub is_empty : FftPlanConfig → Bool
is_empty cfg = cfg.length == 0 || cfg.batch == 0
