-- ===== src/Fft/Pocket/Run.antt =====
-- `pocket_run` on a plan's state, over a library that does what PocketFFT documents.
use native.Mathlib.Nat.{mul-le-mul_right}
use dsp_dispatch.Base.{
  ℕ, ◌+◌, ◌*◌, ◌^◌, ◌<◌, ◌≡◌, ◌⊎◌, inl, inr, refl, fun_ext, sym, ap, ◌∙◌, arith, size_mod, Memory,
  Disjoint, Bool, true, false, not, List, [], ◌∷◌,
}
use dsp_dispatch.Fft.Types.{Status, FftType, FftPrecision, FftPlanConfig}
use dsp_dispatch.Fft.Layout.{in_side, out_side, in_width, out_width, real_size, Serves}
use dsp_dispatch.Fft.Pocket.{
  Pocket, pocket_run, pocket_state, factor, transform, stride_in_of, stride_out_of,
}
use dsp_dispatch.Fft.Pocket.Stride.{
  scalar_at, stride_in_of-scalar_at, stride_out_of-scalar_at, IsTiled, stride_in_of-IsTiled,
  stride_out_of-IsTiled,
}

-- The direction that the type of a transform fixes, or else leaves to the plan.
abbrev pub forward_of : FftType → (inverse : Bool) → Bool
forward_of FftType.complex inverse = not inverse
forward_of FftType.real_to_complex _ = true
forward_of FftType.complex_to_real _ = false

row_fits :
    (p : FftPrecision) (batch w : ℕ)
    → 0 < batch
    → batch * w * real_size p < size_mod
    → w * real_size p < size_mod
row_fits FftPrecision.f32 batch w h l = omega (arith, mul-le-mul_right {m = 1} {n = batch} w h)
row_fits FftPrecision.f64 batch w h l = omega (arith, mul-le-mul_right {m = 1} {n = batch} w h)

same_strides :
    (p : FftPrecision) (t : FftType) (n : ℕ)
    → t ≡ FftType.complex
    → stride_in_of p t n ≡ stride_out_of p t n
unfolding stride_in_of stride_out_of
same_strides p t n e = rw e refl

module _ (pocket : Pocket) (p : FftPrecision) where
  open pocket use {Float}

  -- A library's transform of a row, for each type, direction, length and factor.
  abbrev pub Spectrum : Type 0
  Spectrum = FftType → Bool → ℕ → Float p → (ℕ → Float p) → ℕ → Float p

  -- What the call of a type does.
  abbrev pub call :
      FftType
      → (batch n : ℕ) (stride_in stride_out : List ℕ) (forward : Bool) (input output : ℕ) → Float p
      → Memory (Float p)
      → Bool × Memory (Float p)
  call FftType.complex batch n si so = pocket.c2c p (batch ∷ n ∷ []) si so (1 ∷ [])
  call FftType.real_to_complex batch n si so = pocket.r2c p (batch ∷ n ∷ []) si so 1
  call FftType.complex_to_real batch n si so = pocket.c2r p (batch ∷ n ∷ []) si so 1

  -- What the documentation says of the calls of a type with a shape of `batch` by `n`, along the
  -- second axis, where there is memory for the scratch of length `n`: with two strides for each
  -- buffer, under which neither elements nor rows overlap, and buffers that are apart, or are the
  -- same with the same strides, the call returns, and every row of the output is the transform of the
  -- row of the input.
  abbrev pub IsDocumented : Spectrum → FftType → ℕ → Type 0
  IsDocumented f t n =
      (batch : ℕ) (si so : List ℕ) (forward : Bool) (input output : ℕ) (fct : Float p)
      (mem : Memory (Float p))
      → 0 < batch
      → 0 < n
      → IsTiled p (in_side t) (in_width t n) batch si
      → IsTiled p (out_side t) (out_width t n) batch so
      → Disjoint input (scalar_at p (in_side t) si 0 batch 0) output
          (scalar_at p (out_side t) so 0 batch 0)
        ⊎ ((t ≡ FftType.complex) × (input ≡ output) × (si ≡ so))
      → let (returned, mem') = call t batch n si so forward input output fct mem in
        (returned ≡ true)
        × ((b j : ℕ)
            → b < batch
            → j < out_width t n
            → mem' (scalar_at p (out_side t) so output b j)
              ≡ f t forward n fct (λ i. mem (scalar_at p (in_side t) si input b i)) j)

  transform-call :
      (t : FftType) (cfg : FftPlanConfig) (inverse : Bool) (input output : ℕ)
      (mem : Memory (Float p))
      → transform pocket p t (record (pocket_state p cfg inverse) { type = t }) input output mem
        ≡ call t cfg.batch cfg.length
            (pocket_state p cfg inverse).stride_in
            (pocket_state p cfg inverse).stride_out
            (forward_of t inverse)
            input
            output
            (factor pocket p (pocket_state p cfg inverse))
            mem
  unfolding transform pocket_state
  transform-call FftType.complex cfg inverse input output mem = refl
  transform-call FftType.real_to_complex cfg inverse input output mem = refl
  transform-call FftType.complex_to_real cfg inverse input output mem = refl

  -- On buffers of contiguous rows that are apart, or that are the same for type `Complex`, and where
  -- they are not too large for `size_t`, a run succeeds and serves the caller.
  pub pocket_run-Serves :
      (f : Spectrum) (cfg : FftPlanConfig) (doc : IsDocumented f cfg.type cfg.length)
      (inverse : Bool) (input output : ℕ) (mem : Memory (Float p))
      → 0 < cfg.length
      → 0 < cfg.batch
      → cfg.batch * in_width cfg.type cfg.length * real_size p < 2 ^ 63
      → cfg.batch * out_width cfg.type cfg.length * real_size p < 2 ^ 63
      → Disjoint input
          (cfg.batch * in_width cfg.type cfg.length * real_size p)
          output
          (cfg.batch * out_width cfg.type cfg.length * real_size p)
        ⊎ ((cfg.type ≡ FftType.complex) × (input ≡ output))
      → let (status, mem') = pocket_run pocket p (pocket_state p cfg inverse) input output mem in
        (status ≡ Status.ok)
        × Serves
            (real_size p)
            cfg.batch
            (in_width cfg.type cfg.length)
            (out_width cfg.type cfg.length)
            (f cfg.type
              (forward_of cfg.type inverse)
              cfg.length
              (factor pocket p (pocket_state p cfg inverse)))
            input
            output
            mem
            mem'
  unfolding pocket_run pocket_state
  pocket_run-Serves f cfg doc inverse input output mem hn hb fi fo place =
      rw (transform-call cfg.type cfg inverse input output mem) (
        rw done.0 refl,
        λ b j hj hw.
            ap mem'.1 (sym (out_at output b j))
            ∙ done.1 b j hj hw
            ∙ ap (λ row. f cfg.type (forward_of cfg.type inverse) cfg.length fct row j)
                (fun_ext (λ i. ap mem (in_at input b i))),
      )
    where
      fct : Float p
      fct = factor pocket p (pocket_state p cfg inverse)

      mem' : Bool × Memory (Float p)
      mem' =
          call cfg.type cfg.batch cfg.length (stride_in_of p cfg.type cfg.length)
            (stride_out_of p cfg.type cfg.length) (forward_of cfg.type inverse) input output fct mem

      in_fits : in_width cfg.type cfg.length * real_size p < size_mod
      in_fits = row_fits p cfg.batch _ hb (omega (arith, fi))

      out_fits : out_width cfg.type cfg.length * real_size p < size_mod
      out_fits = row_fits p cfg.batch _ hb (omega (arith, fo))

      in_at :
          (q b j : ℕ)
          → scalar_at p (in_side cfg.type) (stride_in_of p cfg.type cfg.length) q b j
            ≡ q + (b * in_width cfg.type cfg.length + j) * real_size p
      in_at q b j = stride_in_of-scalar_at p cfg.type cfg.length q b j (in_fits)

      out_at :
          (q b j : ℕ)
          → scalar_at p (out_side cfg.type) (stride_out_of p cfg.type cfg.length) q b j
            ≡ q + (b * out_width cfg.type cfg.length + j) * real_size p
      out_at q b j = stride_out_of-scalar_at p cfg.type cfg.length q b j (out_fits)

      done :
          (mem'.0 ≡ true)
          × ((b j : ℕ)
              → b < cfg.batch
              → j < out_width cfg.type cfg.length
              → mem'.1
                  (scalar_at p (out_side cfg.type) (stride_out_of p cfg.type cfg.length) output b j)
                ≡ f cfg.type
                    (forward_of cfg.type inverse)
                    cfg.length
                    fct
                    (λ i. mem (
                      scalar_at p
                        (in_side cfg.type)
                        (stride_in_of p cfg.type cfg.length)
                        input
                        b
                        i))
                    j)
      done =
          doc cfg.batch _ _ _ input output fct mem hb hn
            (stride_in_of-IsTiled p cfg.type cfg.length cfg.batch in_fits fi)
            (stride_out_of-IsTiled p cfg.type cfg.length cfg.batch out_fits fo)
            (elim place [
              | inl apart ↦
                  inl (rw (in_at 0 cfg.batch 0, out_at 0 cfg.batch 0) (ground (arith, apart)))
              | inr (e, q) ↦ inr (e, q, same_strides p cfg.type cfg.length e)
            ])
