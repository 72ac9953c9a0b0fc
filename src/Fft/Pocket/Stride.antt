-- ===== src/Fft/Pocket/Stride.antt =====
-- The byte strides of a plan reach the scalars of the contiguous rows.
use dsp_dispatch.Base.{
  ℕ, ◌+◌, ◌*◌, ◌/◌, ◌%◌, ◌^◌, ◌<◌, ◌≤◌, ◌≡◌, ap, arith, mul_size, mul_size_lem, size_mod, List, [],
  ◌∷◌,
}
use dsp_dispatch.Fft.Types.{FftType, FftPrecision}
use dsp_dispatch.Fft.Layout.{
  Side, reals, complexes, in_side, out_side, in_width, out_width, real_size, unit,
}
use dsp_dispatch.Fft.Pocket.{complex_size, stride_in_of, stride_out_of}

-- Where PocketFFT finds scalar `j` of row `b`, from the strides.
abbrev pub scalar_at : FftPrecision → Side → List ℕ → (p b j : ℕ) → ℕ
scalar_at pr reals (outer ∷ inner ∷ []) p b j = p + b * outer + j * inner
scalar_at pr complexes (outer ∷ inner ∷ []) p b j =
    p + b * outer + j / 2 * inner + j % 2 * real_size pr
scalar_at pr _ _ p b j = p

reals_at :
    (pr : FftPrecision) (p b w j : ℕ)
    → w * real_size pr < size_mod
    → scalar_at pr reals (mul_size w (real_size pr) ∷ real_size pr ∷ []) p b j
      ≡ p + (b * w + j) * real_size pr
reals_at FftPrecision.f32 p b w j h = rw (mul_size_lem w 4 h) (ground arith)
reals_at FftPrecision.f64 p b w j h = rw (mul_size_lem w 8 h) (ground arith)

complexes_at :
    (pr : FftPrecision) (p b w j : ℕ)
    → 2 * w * real_size pr < size_mod
    → scalar_at pr complexes (mul_size w (complex_size pr) ∷ complex_size pr ∷ []) p b j
      ≡ p + (b * (2 * w) + j) * real_size pr
complexes_at FftPrecision.f32 p b w j h = rw (mul_size_lem w 8 (omega arith)) (ground arith)
complexes_at FftPrecision.f64 p b w j h = rw (mul_size_lem w 16 (omega arith)) (ground arith)

pub stride_in_of-scalar_at :
    (pr : FftPrecision) (t : FftType) (n p b j : ℕ)
    → in_width t n * real_size pr < size_mod
    → scalar_at pr (in_side t) (stride_in_of pr t n) p b j
      ≡ p + (b * in_width t n + j) * real_size pr
unfolding stride_in_of
stride_in_of-scalar_at pr FftType.complex n p b j h = complexes_at pr p b n j h
stride_in_of-scalar_at pr FftType.real_to_complex n p b j h = reals_at pr p b n j h
stride_in_of-scalar_at pr FftType.complex_to_real n p b j h = complexes_at pr p b (n / 2 + 1) j h

pub stride_out_of-scalar_at :
    (pr : FftPrecision) (t : FftType) (n p b j : ℕ)
    → out_width t n * real_size pr < size_mod
    → scalar_at pr (out_side t) (stride_out_of pr t n) p b j
      ≡ p + (b * out_width t n + j) * real_size pr
unfolding stride_out_of
stride_out_of-scalar_at pr FftType.complex n p b j h = complexes_at pr p b n j h
stride_out_of-scalar_at pr FftType.real_to_complex n p b j h = complexes_at pr p b (n / 2 + 1) j h
stride_out_of-scalar_at pr FftType.complex_to_real n p b j h = reals_at pr p b n j h

-- Strides of a batch of rows, in bytes: they keep the scalars aligned, an element is not smaller than
-- its scalars, the rows do not overlap, and the whole of them has a positive `ptrdiff_t`.
pub record IsTiled (pr : FftPrecision) (side : Side) (width batch : ℕ) (strides : List ℕ)
    : Type 0 where
  pub outer : ℕ
  pub inner : ℕ
  pub same : strides ≡ outer * real_size pr ∷ inner * real_size pr ∷ []
  pub elements : unit side ≤ inner
  pub rows : width * inner ≤ outer * unit side
  pub fits : batch * outer * real_size pr < 2 ^ 63

-- The strides of the backend are those of contiguous rows.
reals_same :
    (pr : FftPrecision) (w : ℕ)
    → w * real_size pr < size_mod
    → mul_size w (real_size pr) ≡ w * real_size pr
reals_same FftPrecision.f32 w h = mul_size_lem w 4 h
reals_same FftPrecision.f64 w h = mul_size_lem w 8 h

complexes_same :
    (pr : FftPrecision) (w : ℕ)
    → 2 * w * real_size pr < size_mod
    → mul_size w (complex_size pr) ≡ 2 * w * real_size pr
complexes_same FftPrecision.f32 w h = rw (mul_size_lem w 8 (omega arith)) (omega arith)
complexes_same FftPrecision.f64 w h = rw (mul_size_lem w 16 (omega arith)) (omega arith)

stride_in_of-same :
    (pr : FftPrecision) (t : FftType) (n : ℕ)
    → in_width t n * real_size pr < size_mod
    → stride_in_of pr t n ≡ in_width t n * real_size pr ∷ unit (in_side t) * real_size pr ∷ []
unfolding stride_in_of
stride_in_of-same pr FftType.complex n h =
    ap (λ o. o ∷ 2 * real_size pr ∷ []) (complexes_same pr n h)
stride_in_of-same pr FftType.real_to_complex n h =
    rw (reals_same pr n h) (ap (λ i. n * real_size pr ∷ i ∷ []) (omega arith))
stride_in_of-same pr FftType.complex_to_real n h =
    ap (λ o. o ∷ 2 * real_size pr ∷ []) (complexes_same pr (n / 2 + 1) h)

stride_out_of-same :
    (pr : FftPrecision) (t : FftType) (n : ℕ)
    → out_width t n * real_size pr < size_mod
    → stride_out_of pr t n ≡ out_width t n * real_size pr ∷ unit (out_side t) * real_size pr ∷ []
unfolding stride_out_of
stride_out_of-same pr FftType.complex n h =
    ap (λ o. o ∷ 2 * real_size pr ∷ []) (complexes_same pr n h)
stride_out_of-same pr FftType.real_to_complex n h =
    ap (λ o. o ∷ 2 * real_size pr ∷ []) (complexes_same pr (n / 2 + 1) h)
stride_out_of-same pr FftType.complex_to_real n h =
    rw (reals_same pr n h) (ap (λ i. n * real_size pr ∷ i ∷ []) (omega arith))

pub stride_in_of-IsTiled :
    (pr : FftPrecision) (t : FftType) (n batch : ℕ)
    → in_width t n * real_size pr < size_mod
    → batch * in_width t n * real_size pr < 2 ^ 63
    → IsTiled pr (in_side t) (in_width t n) batch (stride_in_of pr t n)
stride_in_of-IsTiled pr t n batch row all = record {
  outer = in_width t n;
  inner = unit (in_side t);
  same = stride_in_of-same pr t n row;
  elements = omega arith;
  rows = omega arith;
  fits = all;
}

pub stride_out_of-IsTiled :
    (pr : FftPrecision) (t : FftType) (n batch : ℕ)
    → out_width t n * real_size pr < size_mod
    → batch * out_width t n * real_size pr < 2 ^ 63
    → IsTiled pr (out_side t) (out_width t n) batch (stride_out_of pr t n)
stride_out_of-IsTiled pr t n batch row all = record {
  outer = out_width t n;
  inner = unit (out_side t);
  same = stride_out_of-same pr t n row;
  elements = omega arith;
  rows = omega arith;
  fits = all;
}
