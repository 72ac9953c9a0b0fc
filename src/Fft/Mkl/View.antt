-- ===== src/Fft/Mkl/View.antt =====
-- What DFTI documents of its descriptors, and what the settings of a configuration make of one.
use dsp_dispatch.Base.{
  ℕ, ◌+◌, ◌*◌, ◌<◌, ◌≤◌, ◌≡◌, refl, arith, Bool, true, false, if◌then◌else◌, List, [], ◌∷◌, Memory,
  Disjoint, ◌^◌, inl, inr, Bool-cases,
}
use dsp_dispatch.Base.Int.{ℤ}
use dsp_dispatch.Fft.Types.{FftType, FftDirection, FftPlanConfig}
use dsp_dispatch.Fft.Direction.{contradicts, inverts}
use dsp_dispatch.Fft.Layout.{unit, in_side, out_side, in_width, out_width}
use dsp_dispatch.Fft.Mkl.{
  DftiConfigValue, Setting, placement, conjugate_even_storage, number_of_transforms, input_distance,
  output_distance, backward_scale, Dfti, domain_of, in_dist, out_dist, is_real, dfti_ok,
}
use dsp_dispatch.Fft.Mkl.Settings.{settings, apply}

-- What a descriptor is set to.
pub record View (Double : Type 0) : Type 0 where
  pub precision : DftiConfigValue
  pub domain : DftiConfigValue
  pub length : ℕ
  pub place : DftiConfigValue
  pub storage : DftiConfigValue
  pub transforms : ℕ
  pub input_step : ℕ
  pub output_step : ℕ
  pub scale : Double

abbrev pub with_setting : {Double : Type 0} → Setting Double → View Double → View Double
with_setting (placement c) v = record v { place = c }
with_setting (conjugate_even_storage c) v = record v { storage = c }
with_setting (number_of_transforms n) v = record v { transforms = n }
with_setting (input_distance n) v = record v { input_step = n }
with_setting (output_distance n) v = record v { output_step = n }
with_setting (backward_scale x) v = record v { scale = x }

unfoldable pub with_settings : {Double : Type 0} → List (Setting Double) → View Double → View Double
with_settings [] v = v
with_settings (s ∷ rest) v = with_settings rest (with_setting s v)

module _ {A : Type 0} (dfti : Dfti A) where
  open dfti use {Double, Descriptor}

  -- A library's transform of a row, for each precision, type and direction, times a factor.
  abbrev pub Spectrum : Type 0
  Spectrum = DftiConfigValue → FftType → (inverse : Bool) → (factor : Double) → ℕ → (ℕ → A) → ℕ → A

  abbrev pub compute : (inverse : Bool) → Descriptor → (input output : ℕ) → Memory A → ℤ × Memory A
  compute true = dfti.compute_backward
  compute false = dfti.compute_forward

  -- What DFTI documents: `Is h v` says that a descriptor is set to `v`, `IsCommitted h v` that it is
  -- committed too. A new descriptor has a factor of 1. A call that reports no error does what it is
  -- for. With a committed descriptor whose results do not go to the place of the input, with complex
  -- storage of conjugate-even bins, rows of the input that do not overlap, nor those of the output,
  -- and two buffers, of all their rows, that are apart, a computation reports no error and transforms every row, the rows of a buffer being a
  -- distance apart, and multiplies by the factor where it is a backward one.
  pub record IsDocumented (f : Spectrum) : Type 1 where
    pub Is : Descriptor → View Double → Type 0
    pub IsCommitted : Descriptor → View Double → Type 0
    pub default : View Double
    pub made :
        (precision domain : DftiConfigValue) (n : ℕ)
        → let (st, h) = dfti.create_descriptor precision domain 1 n in
          dfti_ok dfti st ≡ true
          → Is h (record default {
            precision = precision;
            domain = domain;
            length = n;
            scale = dfti.one;
          })
    pub set :
        (s : Setting Double) (h : Descriptor) (v : View Double)
        → Is h v
        → let (st, h') = dfti.set_value s h in dfti_ok dfti st ≡ true → Is h' (with_setting s v)
    pub committed :
        (h : Descriptor) (v : View Double)
        → Is h v
        → let (st, h') = dfti.commit_descriptor h in dfti_ok dfti st ≡ true → IsCommitted h' v
    pub computed :
        (t : FftType) (d : FftDirection) (h : Descriptor) (v : View Double) (input output : ℕ)
        (mem : Memory A)
        → contradicts t d ≡ false
        → IsCommitted h v
        → v.domain ≡ domain_of t
        → v.place ≡ DftiConfigValue.not_inplace
        → (v.domain ≡ DftiConfigValue.real → v.storage ≡ DftiConfigValue.complex_complex)
        → 0 < v.length
        → v.length < 2 ^ 63
        → 0 < v.transforms
        → v.transforms < 2 ^ 63
        → v.input_step < 2 ^ 63
        → v.output_step < 2 ^ 63
        → in_width t v.length ≤ v.input_step * unit (in_side t)
        → out_width t v.length ≤ v.output_step * unit (out_side t)
        → Disjoint input
            (v.transforms * v.input_step * unit (in_side t))
            output
            (v.transforms * v.output_step * unit (out_side t))
        → let (st, mem') = compute (inverts t d) h input output mem in
          (dfti_ok dfti st ≡ true)
          × ((b j : ℕ)
              → b < v.transforms
              → j < out_width t v.length
              → mem' (output + b * v.output_step * unit (out_side t) + j)
                ≡ f v.precision t
                    (inverts t d)
                    (if inverts t d then v.scale else dfti.one)
                    v.length
                    (λ i. mem (input + b * v.input_step * unit (in_side t) + i))
                    j)

  module _ (f : Spectrum) (doc : IsDocumented f) where
    -- Settings that report no error leave a committed descriptor that has them all.
    pub apply-IsCommitted :
        (l : List (Setting Double)) (h : Descriptor) (v : View Double)
        → doc.Is h v
        → (apply dfti l h).0 ≡ true
        → doc.IsCommitted (apply dfti l h).1 (with_settings l v)
    unfolding apply with_settings
    apply-IsCommitted [] h v is ok = doc.committed h v is ok
    apply-IsCommitted (s ∷ rest) h v is ok =
        elim (Bool-cases (dfti_ok dfti (dfti.set_value s h).0)) [
          | inl fine ↦ rw fine (
              apply-IsCommitted rest _ (with_setting s v) (doc.set s h v is fine)
                (ground (arith, ok, fine)))
          | inr failed ↦ absurd (ground (arith, ok, failed))
        ]

module _ {A : Type 0} (dfti : Dfti A) (cfg : FftPlanConfig) (inverse : Bool) where
  open dfti use {Double}

  abbrev pub reciprocal : Double
  reciprocal = dfti.div dfti.one (dfti.of_size cfg.length)

  -- A view with the settings for the configuration.
  abbrev pub set_up : View Double → View Double
  set_up v = record v {
    place = DftiConfigValue.not_inplace;
    storage = if is_real (domain_of cfg.type) then DftiConfigValue.complex_complex else v.storage;
    transforms = cfg.batch;
    input_step = in_dist cfg.type cfg.length;
    output_step = out_dist cfg.type cfg.length;
    scale = if inverse then reciprocal else v.scale;
  }

  pub with_settings-set_up :
      (v : View Double) → with_settings (settings dfti cfg inverse) v ≡ set_up v
  unfolding with_settings
  with_settings-set_up v = elim (Bool-cases (is_real (domain_of cfg.type))) [
    | inl real ↦ elim (Bool-cases inverse) [
      | inl back ↦ rw (real, back) refl
      | inr forth ↦ rw (real, forth) refl
    ]
    | inr complex ↦ elim (Bool-cases inverse) [
      | inl back ↦ rw (complex, back) refl
      | inr forth ↦ rw (complex, forth) refl
    ]
  ]
