-- ===== src/Fft/Fftw3.antt =====
-- The interface of fftw3.h, which Arm Performance Libraries and FFTW implement for each precision, as
-- src/backends/armpl/armpl_backend.cpp and bench/backends/fftw/fftw_backend.cpp call it.
use dsp_dispatch.Base.{
  ℕ, ◌+◌, ◌*◌, ◌^◌, ◌≡◌, ◌<◌, ◌≤◌, Bool, true, false, Option, some, Memory, Disjoint, List, [], ◌∷◌,
  if◌then◌else◌,
}
use dsp_dispatch.Fft.Types.{FftType}
use dsp_dispatch.Fft.Layout.{unit, in_side, out_side, in_width, out_width}

-- The arithmetic of `Real` that the backends do, and what they call of the library for one
-- precision: whether an allocation of so many bytes, the first or the second of a creation, is
-- granted; the three planners, from the rank, the dimensions, the number of transforms, the stride and
-- the distance of the input and of the output, and for complex transforms whether the sign is
-- FFTW_BACKWARD, of which `none` is a null plan; and the three calls that run a plan on other
-- buffers. The physical sizes are null in every call, and the flags are the same. An `int` is kept as
-- its 32 bits. The planners write to the scratch buffers only, which are read by nobody.
pub record Fftw : Type 1 where
  pub Float : Type 0
  pub one : Float
  pub div : Float → Float → Float
  pub mul : Float → Float → Float
  pub of_size : ℕ → Float
  pub Plan : Type 0
  pub granted : (call bytes : ℕ) → Bool
  pub fftw_plan_many_dft :
      (rank : ℕ) (n : List ℕ) (howmany istride idist ostride odist : ℕ) (backward : Bool)
      → Option Plan
  pub fftw_plan_many_dft_r2c :
      (rank : ℕ) (n : List ℕ) (howmany istride idist ostride odist : ℕ) → Option Plan
  pub fftw_plan_many_dft_c2r :
      (rank : ℕ) (n : List ℕ) (howmany istride idist ostride odist : ℕ) → Option Plan
  pub fftw_execute_dft : Plan → (input output : ℕ) → Memory Float → Memory Float
  pub fftw_execute_dft_r2c : Plan → (input output : ℕ) → Memory Float → Memory Float
  pub fftw_execute_dft_c2r : Plan → (input output : ℕ) → Memory Float → Memory Float

-- How many blocks and plans of the library are live.
pub record Live : Type 0 where
  pub blocks : ℕ
  pub plans : ℕ

-- The caller's memory, in scalars, and what is live of the library's.
pub record Machine (A : Type 0) : Type 0 where
  pub memory : Memory A
  pub live : Live

-- the blocks that a granted or refused allocation adds
abbrev pub count : Bool → ℕ
count true = 1
count false = 0

module _ (fftw : Fftw) where
  open fftw use {Float}

  -- A library's transform of a row, for each type, direction and length.
  abbrev pub Spectrum : Type 0
  Spectrum = FftType → (inverse : Bool) → ℕ → (ℕ → Float) → ℕ → Float

  -- The planner of one dimension for a type, with strides of 1.
  abbrev pub planner : FftType → (n howmany idist odist : ℕ) (backward : Bool) → Option fftw.Plan
  planner FftType.complex n howmany di do' backward =
      fftw.fftw_plan_many_dft 1 (n ∷ []) howmany 1 di 1 do' backward
  planner FftType.real_to_complex n howmany di do' _ =
      fftw.fftw_plan_many_dft_r2c 1 (n ∷ []) howmany 1 di 1 do'
  planner FftType.complex_to_real n howmany di do' _ =
      fftw.fftw_plan_many_dft_c2r 1 (n ∷ []) howmany 1 di 1 do'

  -- The call that runs a plan for a type.
  abbrev pub runner : FftType → fftw.Plan → (input output : ℕ) → Memory Float → Memory Float
  runner FftType.complex = fftw.fftw_execute_dft
  runner FftType.real_to_complex = fftw.fftw_execute_dft_r2c
  runner FftType.complex_to_real = fftw.fftw_execute_dft_c2r

  -- What FFTW documents of its plans: where the arguments are positive as `int`, neither the rows of
  -- the input nor those of the output overlap, and the two buffers, of all their rows, are apart, the
  -- plan transforms every row, the rows of a buffer being a distance apart. (The plans are made for
  -- different buffers; of the same one nothing is said.)
  abbrev pub IsDocumented : Spectrum → Type 0
  IsDocumented f =
      (t : FftType) (n howmany di do' : ℕ) (inverse : Bool) (q : fftw.Plan) (input output : ℕ)
      (mem : Memory Float)
      → planner t n howmany di do' inverse ≡ some q
      → 0 < n
      → n < 2 ^ 31
      → 0 < howmany
      → howmany < 2 ^ 31
      → di < 2 ^ 31
      → do' < 2 ^ 31
      → in_width t n ≤ di * unit (in_side t)
      → out_width t n ≤ do' * unit (out_side t)
      → Disjoint input (howmany * di * unit (in_side t)) output (howmany * do' * unit (out_side t))
      → (b j : ℕ) → b < howmany
      → j < out_width t n
      → runner t q input output mem (output + b * do' * unit (out_side t) + j)
        ≡ f t inverse n (λ i. mem (input + b * di * unit (in_side t) + i)) j

  -- What the public contract makes of it: 1/n on the inverse directions.
  abbrev pub normalized : Spectrum → Spectrum
  normalized f t inverse n row j =
      if inverse
      then fftw.mul (f t inverse n row j) (fftw.div fftw.one (fftw.of_size n))
      else f t inverse n row j
