-- ===== src/Fft/Direction.antt =====
-- The directions that include/fft/fft.h allows for each type of transform.
use dsp_dispatch.Base.{◌≡◌, ◌≢◌, Bool, true, false, some, arith}
use dsp_dispatch.Fft.Types.{FftType, FftDirection, is_inverse, resolve}

-- A transform of reals into bins has no inverse direction.
abbrev pub contradicts : FftType → FftDirection → Bool
contradicts FftType.real_to_complex d = is_inverse d
contradicts _ d = false

-- Whether the transform is an inverse one: a transform of bins into reals always is.
abbrev pub inverts : FftType → FftDirection → Bool
inverts FftType.complex d = is_inverse d
inverts FftType.real_to_complex _ = false
inverts FftType.complex_to_real _ = true

pub resolve-inverts :
    (t : FftType) (d : FftDirection)
    → contradicts t d ≡ false
    → (resolve t d).value ≡ some (inverts t d)
resolve-inverts t d h = ground arith

pub not_real : (t : FftType) (d : FftDirection) → inverts t d ≡ true → t ≢ FftType.real_to_complex
not_real t d h = ground arith
