-- ===== src/Fft/Aocl.antt =====
-- src/backends/aocl/aocl_backend.cpp, the FFT over AOCL-FFTZ. A child proves each part.
pub mod Length
pub mod Create
pub mod Execute
pub mod Plan
mod Tests
use dsp_dispatch.Base.{
  ℕ, suc, ◌+◌, ◌-◌, ◌/◌, if◌then◌else◌, Bool, true, false, Option, none, some, add_size, mul_size,
  Memory,
}
use dsp_dispatch.Base.Int.{to_int}
use dsp_dispatch.Base.Machine.{Machine}
use dsp_dispatch.Fft.Types.{
  Status, FftType, FftPrecision, FftPlanConfig, Result, of_value, of_status, resolve, is_empty,
}
use dsp_dispatch.Fft.Scale.{scale}
use dsp_dispatch.Fft.Layout.{real_size}
use dsp_dispatch.Fft.Plan.{BackendPlan}
use dsp_dispatch.Fft.Aocl.Length.{aocl_real_length_supported}

-- `aoclfftz_dim_t`. An INT32 is kept as its 32 bits.
pub record Dim : Type 0 where
  pub n : ℕ
  pub in_stride : ℕ
  pub out_stride : ℕ

-- The fields of the problem description that depend on the configuration; the others are constants
-- of `make_typed`, `fft_placement` (out-of-place) among them.
pub record Desc : Type 0 where
  pub dims : Dim
  pub vecs : Dim
  pub real : Bool
  pub inverse : Bool

-- The arithmetic of `Real` that the backend does, and what it calls of aoclfftz.h for one precision:
-- `none` of `setup` is a null handle, and `execute_io` says whether it returned AOCLFFTZ_SUCCESS.
pub record Fftz : Type 1 where
  pub Float : Type 0
  pub one : Float
  pub div : Float → Float → Float
  pub mul : Float → Float → Float
  pub of_size : ℕ → Float
  pub Handle : Type 0
  pub setup : Desc → Option Handle
  pub execute_io : Handle → (input output : ℕ) → Memory Float → Bool × Memory Float

module _ (fftz : Fftz) where
  open fftz use {Float}

  -- `AoclState`; of the two buffers the sizes in bytes, which nothing but the setup reads.
  pub record AoclState : Type 0 where
    pub f64 : Bool
    pub inverse : Bool
    pub type : FftType
    pub n : ℕ
    pub batch : ℕ
    pub handle : Option fftz.Handle
    pub dims : Dim
    pub vecs : Dim
    pub in_buf : ℕ
    pub out_buf : ℕ

  -- `inv`
  abbrev pub reciprocal : ℕ → Float
  reciprocal n = fftz.div fftz.one (fftz.of_size n)

  -- `aocl_execute<Real>`. (A state that is in use has its handle.)
  unfoldable pub aocl_execute :
      AoclState → (input output : ℕ) → Machine Float → Status × AoclState × Machine Float
  aocl_execute s input output m =
      let ran : Bool × Memory Float = elim s.handle [
        | none ↦ (false, m.memory)
        | some h ↦ fftz.execute_io h input output m.memory
      ] in
      if ran.0
      then (
        Status.ok,
        s,
        record m {
          memory =
              if s.inverse
              then scale fftz.mul s.type (reciprocal s.n) s.n s.batch output ran.1
              else ran.1;
        },
      )
      else (Status.backend_error, s, record m { memory = ran.1 })

  -- `~AoclState`
  abbrev pub release : AoclState → ℕ → ℕ
  release s live = elim s.handle [ none ↦ live | some _ ↦ live - 1 ]

  -- `aocl_destroy`
  unfoldable pub aocl_destroy : AoclState → Machine Float → Machine Float
  aocl_destroy s m = record m { live = release s m.live }

-- The distances between transforms and the scalars of the buffers for the setup.
abbrev pub in_dist : FftType → ℕ → ℕ
in_dist FftType.complex_to_real n = n / 2 + 1
in_dist _ n = n

abbrev pub out_dist : FftType → ℕ → ℕ
out_dist FftType.real_to_complex n = n / 2 + 1
out_dist _ n = n

abbrev pub in_scalars : FftType → (n batch : ℕ) → ℕ
in_scalars FftType.complex n batch = mul_size (mul_size n batch) 2
in_scalars FftType.real_to_complex n batch = mul_size n batch
in_scalars FftType.complex_to_real n batch = mul_size (mul_size (n / 2 + 1) batch) 2

abbrev pub out_scalars : FftType → (n batch : ℕ) → ℕ
out_scalars FftType.complex n batch = mul_size (mul_size n batch) 2
out_scalars FftType.real_to_complex n batch = mul_size (mul_size (n / 2 + 1) batch) 2
out_scalars FftType.complex_to_real n batch = mul_size n batch

abbrev pub is_real : FftType → Bool
is_real FftType.complex = false
is_real _ = true

abbrev pub is_f64 : FftPrecision → Bool
is_f64 FftPrecision.f64 = true
is_f64 FftPrecision.f32 = false

unfoldable pub describe : FftType → (inverse : Bool) → (n batch : ℕ) → Desc
describe t inverse n batch = record {
  dims = record { n = to_int n; in_stride = 1; out_stride = 1 };
  vecs = record {
    n = to_int batch;
    in_stride = to_int (in_dist t n);
    out_stride = to_int (out_dist t n);
  };
  real = is_real t;
  inverse = inverse;
}

module _ (fftz : Fftz) where
  open fftz use {Float}

  -- The state that `make_typed<Real>` fills in.
  abbrev pub new_state : FftPrecision → FftPlanConfig → (inverse : Bool) → AoclState fftz
  new_state p cfg inverse =
      let desc = describe cfg.type inverse cfg.length cfg.batch in
      record {
        f64 = is_f64 p;
        inverse = inverse;
        type = cfg.type;
        n = cfg.length;
        batch = cfg.batch;
        handle = fftz.setup desc;
        dims = desc.dims;
        vecs = desc.vecs;
        in_buf = mul_size (in_scalars cfg.type cfg.length cfg.batch) (real_size p);
        out_buf = mul_size (out_scalars cfg.type cfg.length cfg.batch) (real_size p);
      }

  -- `make_typed<Real>`, with how many handles are live after it
  unfoldable pub make_typed : AoclState fftz → ℕ → BackendPlan (Machine Float) × ℕ
  make_typed s live = (
    record {
      State = AoclState fftz;
      state = s;
      execute = aocl_execute fftz;
      destroy = aocl_destroy fftz;
      workspace_bytes = add_size s.in_buf s.out_buf;
      name = "aocl";
    },
    elim s.handle [ none ↦ live | some _ ↦ suc live ],
  )

-- `make_backend_plan`, over the library at each precision. `none` means that the loops of the length
-- test do not end; a length of 0 has been refused before.
unfoldable pub make_backend_plan :
    (fftz : FftPrecision → Fftz) (cfg : FftPlanConfig)
    → ℕ
    → Option (Result (BackendPlan (Machine (fftz cfg.precision).Float)) × ℕ)
make_backend_plan fftz cfg live =
    if is_empty cfg
    then some (of_status Status.invalid_argument, live)
    else elim (resolve cfg.type cfg.direction).value [
      | none ↦ some (of_status (resolve cfg.type cfg.direction).status, live)
      | some inverse ↦
          elim (if is_real cfg.type then aocl_real_length_supported cfg.length else some true) [
            | none ↦ none
            | some false ↦ some (of_status Status.unsupported_length, live)
            | some true ↦
                let s = new_state (fftz cfg.precision) cfg.precision cfg inverse in
                let (bp, live') = make_typed (fftz cfg.precision) s live in
                some (elim s.handle [
                  | none ↦ (of_status Status.backend_error, release (fftz cfg.precision) s live')
                  | some _ ↦ (of_value bp, live')
                ])
          ]
    ]
