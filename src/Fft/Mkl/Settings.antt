-- ===== src/Fft/Mkl/Settings.antt =====
-- The calls that configure a descriptor, as one list, and what DFTI documents of a descriptor.
use dsp_dispatch.Base.{
  ◌≡◌, refl, Bool, true, false, if◌then◌else◌, List, [], ◌∷◌, ◌++◌, ◌∙◌, inl, inr, Bool-cases,
}
use dsp_dispatch.Fft.Types.{FftPlanConfig}
use dsp_dispatch.Fft.Mkl.{
  DftiConfigValue, Setting, placement, conjugate_even_storage, number_of_transforms, input_distance,
  output_distance, backward_scale, Dfti, domain_of, in_dist, out_dist, is_real, dfti_ok, and_then,
  configure,
}

module _ {A : Type 0} (dfti : Dfti A) where
  open dfti use {Double, Descriptor}

  -- The settings for a configuration, in their order.
  abbrev pub settings : FftPlanConfig → (inverse : Bool) → List (Setting Double)
  settings cfg inverse =
      placement DftiConfigValue.not_inplace
        ∷ (if is_real (domain_of cfg.type)
            then conjugate_even_storage DftiConfigValue.complex_complex ∷ []
            else [])
      ++ number_of_transforms cfg.batch
        ∷ input_distance (in_dist cfg.type cfg.length)
        ∷ output_distance (out_dist cfg.type cfg.length)
        ∷ (if inverse
            then backward_scale (dfti.div dfti.one (dfti.of_size cfg.length)) ∷ []
            else [])

  -- Every setting and then the commitment is made, up to the first that reports an error.
  unfoldable pub apply : List (Setting Double) → Descriptor → Bool × Descriptor
  apply [] h = let (st, h') = dfti.commit_descriptor h in (dfti_ok dfti st, h')
  apply (s ∷ rest) h =
      let (st, h') = dfti.set_value s h in
      let (ok, last) = apply rest h' in if dfti_ok dfti st then (ok, last) else (false, h')

  -- The same calls as the code makes them, one after the other.
  unfoldable run : List (Setting Double) → Bool × Descriptor → Bool × Descriptor
  run [] p = and_then dfti dfti.commit_descriptor p
  run (s ∷ rest) p = run rest (and_then dfti (dfti.set_value s) p)

  run-false : (l : List (Setting Double)) (h : Descriptor) → run l (false, h) ≡ (false, h)
  unfolding run and_then
  run-false [] h = refl
  run-false (s ∷ rest) h = run-false rest h

  run-apply : (l : List (Setting Double)) (h : Descriptor) → run l (true, h) ≡ apply l h
  unfolding run apply and_then
  run-apply [] h = refl
  run-apply (s ∷ rest) h = elim (Bool-cases (dfti_ok dfti (dfti.set_value s h).0)) [
    | inl fine ↦ rw fine (run-apply rest _)
    | inr failed ↦ rw failed (run-false rest _)
  ]

  configure-run :
      (cfg : FftPlanConfig) (inverse : Bool) (h : Descriptor)
      → configure dfti cfg inverse h ≡ run (settings cfg inverse) (true, h)
  unfolding configure run
  configure-run cfg inverse h = elim (Bool-cases (is_real (domain_of cfg.type))) [
    | inl real ↦ elim (Bool-cases inverse) [
      | inl back ↦ rw (real, back) refl
      | inr forth ↦ rw (real, forth) refl
    ]
    | inr complex ↦ elim (Bool-cases inverse) [
      | inl back ↦ rw (complex, back) refl
      | inr forth ↦ rw (complex, forth) refl
    ]
  ]

  pub configure-apply :
      (cfg : FftPlanConfig) (inverse : Bool) (h : Descriptor)
      → configure dfti cfg inverse h ≡ apply (settings cfg inverse) h
  configure-apply cfg inverse h = configure-run cfg inverse h ∙ run-apply (settings cfg inverse) h
