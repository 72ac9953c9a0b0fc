-- ===== src/Fft/Pocket.antt =====
-- src/backends/pocketfft/pocketfft_backend.cpp, the FFT over PocketFFT. A child proves each part.
pub mod Stride
pub mod Run
pub mod Create
mod Tests
use dsp_dispatch.Base.{
  ℕ, ◌+◌, ◌*◌, ◌/◌, if◌then◌else◌, Bool, true, false, not, none, some, mul_size, Memory, List, [],
  ◌∷◌,
}
use dsp_dispatch.Fft.Types.{
  Status, FftType, FftPrecision, FftPlanConfig, Result, of_value, of_status, resolve, is_empty,
  is_ok,
}
use dsp_dispatch.Fft.Layout.{real_size}
use dsp_dispatch.Fft.Plan.{BackendPlan}

-- The arithmetic of `Real` that the backend does, and what it calls of pocketfft_hdronly.h: from the
-- shape, the byte strides of input and output, the axes, the direction, the two addresses, and the
-- factor; whether the call returns (it may throw), and the memory after it. Memory is in bytes, a
-- scalar standing at its first one. A `ptrdiff_t` is kept as its 64 bits, read as a `size_t`.
pub record Pocket : Type 1 where
  pub Float : FftPrecision → Type 0
  pub zero : (p : FftPrecision) → Float p
  pub one : (p : FftPrecision) → Float p
  pub div : (p : FftPrecision) → Float p → Float p → Float p
  pub of_size : (p : FftPrecision) → ℕ → Float p
  pub c2c :
      (p : FftPrecision) (shape stride_in stride_out axes : List ℕ) (forward : Bool)
      (input output : ℕ)
      → Float p
      → Memory (Float p)
      → Bool × Memory (Float p)
  pub r2c :
      (p : FftPrecision) (shape stride_in stride_out : List ℕ) (axis : ℕ) (forward : Bool)
      (input output : ℕ)
      → Float p
      → Memory (Float p)
      → Bool × Memory (Float p)
  pub c2r :
      (p : FftPrecision) (shape stride_in stride_out : List ℕ) (axis : ℕ) (forward : Bool)
      (input output : ℕ)
      → Float p
      → Memory (Float p)
      → Bool × Memory (Float p)

-- `PocketState<Real>`
pub record PocketState : Type 0 where
  pub type : FftType
  pub inverse : Bool
  pub n : ℕ
  pub batch : ℕ
  pub shape : List ℕ
  pub axes : List ℕ
  pub stride_in : List ℕ
  pub stride_out : List ℕ

module _ (pocket : Pocket) (p : FftPrecision) where
  open pocket use {Float}

  -- `fct`
  abbrev pub factor : PocketState → Float p
  factor s = if s.inverse then pocket.div p (pocket.one p) (pocket.of_size p s.n) else pocket.one p

  -- The switch of `pocket_run`: one call of the library, for each type.
  unfoldable pub transform :
      FftType → PocketState → (input output : ℕ) → Memory (Float p) → Bool × Memory (Float p)
  transform FftType.complex s input output mem =
      pocket.c2c p s.shape s.stride_in s.stride_out s.axes (not s.inverse) input output (factor s)
        mem
  transform FftType.real_to_complex s input output mem =
      pocket.r2c p s.shape s.stride_in s.stride_out 1 true input output (factor s) mem
  transform FftType.complex_to_real s input output mem =
      pocket.c2r p s.shape s.stride_in s.stride_out 1 false input output (factor s) mem

  -- `pocket_run`, with the status of a throw
  unfoldable pub pocket_run :
      PocketState → (input output : ℕ) → Memory (Float p) → Status × Memory (Float p)
  pocket_run s input output mem =
      let (returned, mem') = transform s.type s input output mem in
      (if returned then Status.ok else Status.backend_error, mem')

  -- `pocket_execute`, which leaves the state as it is
  unfoldable pub pocket_execute :
      PocketState → (input output : ℕ) → Memory (Float p) → Status × PocketState × Memory (Float p)
  pocket_execute s input output mem =
      let (st, mem') = pocket_run s input output mem in (st, s, mem')

  -- `pocket_destroy`. It frees the state, which no caller's buffer is part of.
  abbrev pub pocket_destroy : PocketState → Memory (Float p) → Memory (Float p)
  pocket_destroy s mem = mem

-- `sizeof(Real)` and `sizeof(std::complex<Real>)`
abbrev pub complex_size : FftPrecision → ℕ
complex_size p = 2 * real_size p

-- The two strides of the input: from a transform to the next, and from an element to the next.
unfoldable pub stride_in_of : FftPrecision → FftType → (n : ℕ) → List ℕ
stride_in_of p FftType.complex n = mul_size n (complex_size p) ∷ complex_size p ∷ []
stride_in_of p FftType.real_to_complex n = mul_size n (real_size p) ∷ real_size p ∷ []
stride_in_of p FftType.complex_to_real n =
    mul_size (n / 2 + 1) (complex_size p) ∷ complex_size p ∷ []

unfoldable pub stride_out_of : FftPrecision → FftType → (n : ℕ) → List ℕ
stride_out_of p FftType.complex n = mul_size n (complex_size p) ∷ complex_size p ∷ []
stride_out_of p FftType.real_to_complex n =
    mul_size (n / 2 + 1) (complex_size p) ∷ complex_size p ∷ []
stride_out_of p FftType.complex_to_real n = mul_size n (real_size p) ∷ real_size p ∷ []

-- The sizes of the throwaway buffers.
abbrev pub in_bytes : FftPrecision → FftType → (n batch : ℕ) → ℕ
in_bytes p FftType.complex n batch = mul_size (mul_size n batch) (complex_size p)
in_bytes p FftType.real_to_complex n batch = mul_size (mul_size n batch) (real_size p)
in_bytes p FftType.complex_to_real n batch = mul_size (mul_size (n / 2 + 1) batch) (complex_size p)

-- The state that `make_typed` fills in.
unfoldable pub pocket_state : FftPrecision → FftPlanConfig → (inverse : Bool) → PocketState
pocket_state p cfg inverse = record {
  type = cfg.type;
  inverse = inverse;
  n = cfg.length;
  batch = cfg.batch;
  shape = cfg.batch ∷ cfg.length ∷ [];
  axes = 1 ∷ [];
  stride_in = stride_in_of p cfg.type cfg.length;
  stride_out = stride_out_of p cfg.type cfg.length;
}

module _ (pocket : Pocket) (p : FftPrecision) where
  open pocket use {Float}

  -- The status of the run on the two throwaway buffers, the second behind the first in a memory of
  -- their own.
  unfoldable pub warm_up : FftPlanConfig → (inverse : Bool) → Status
  warm_up cfg inverse =
      (pocket_run pocket p (pocket_state p cfg inverse) 0 (in_bytes p cfg.type cfg.length cfg.batch)
        (λ _. pocket.zero p)).0

  abbrev pub plan_of : PocketState → BackendPlan (Memory (Float p))
  plan_of s = record {
    State = PocketState;
    state = s;
    execute = pocket_execute pocket p;
    destroy = pocket_destroy pocket p;
    workspace_bytes = 0;
    name = "pocketfft";
  }

  -- `make_typed<Real>`
  unfoldable pub make_typed :
      FftPlanConfig → (inverse : Bool) → Result (BackendPlan (Memory (Float p)))
  make_typed cfg inverse =
      if is_ok (warm_up cfg inverse)
      then of_value (plan_of (pocket_state p cfg inverse))
      else of_status Status.backend_error

-- `make_backend_plan`
unfoldable pub make_backend_plan :
    (pocket : Pocket) (cfg : FftPlanConfig)
    → Result (BackendPlan (Memory (pocket.Float cfg.precision)))
make_backend_plan pocket cfg =
    if is_empty cfg
    then of_status Status.invalid_argument
    else elim (resolve cfg.type cfg.direction).value [
      | none ↦ of_status (resolve cfg.type cfg.direction).status
      | some inverse ↦ make_typed pocket cfg.precision cfg inverse
    ]
