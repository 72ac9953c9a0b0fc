-- ===== src/Fir/Ipp/Tests.antt =====
-- The theorems on the IPP filter at concrete inputs, over a stand-in for IPP that copies its source
-- and fails on a null delay line.
use dsp_dispatch.Base.{
  Memory, [], ◌∷◌, false, ℕ, ◌≡◌, ◌+◌, ◌-◌, ◌==◌, arith, refl, true, Option, none, some, assign,
  if◌then◌else◌,
}
use dsp_dispatch.Base.Int.{pos}
use dsp_dispatch.Base.Cpp.{CppType}
use dsp_dispatch.Fir.Types.{Status, FirPlanConfig, is_null, of_value, invalid_common}
use dsp_dispatch.Fir.Plan.{FirPlan, create}
use dsp_dispatch.Fir.Session.{plain, AnswersAnew}
use dsp_dispatch.Fir.Examples.{
  counting, config, signal, two_sums, taps, two_blocks, empty_memory, fresh_signal, fresh_block,
}
use dsp_dispatch.Fir.Ipp.{
  Ipp, s32f_t32f, ipp_exec, ipp_init, get_size, IppStatus, IppFirState, make_backend_plan,
}
use dsp_dispatch.Fir.Ipp.Stream.{IsDocumented, IsCallable}
use dsp_dispatch.Fir.Ipp.Plan.{ipp-Answers}
use dsp_dispatch.Fir.Ipp.Create.{ipp-create_status}

abbrev Answer : Type 0
Answer = IppStatus × (ℕ → ℕ) × (ℕ → ℕ) × ℕ

abbrev copying : (block spec : ℕ) → (ℕ → ℕ) → Option (ℕ → ℕ) → ℕ → Answer
copying block spec source delay work = elim delay [
  | none ↦ (IppStatus.null_ptr_err, source, source, work)
  | some d ↦ (IppStatus.no_err, source, d, work)
]

abbrev toy : Ipp counting
toy = record {
  Spec = ℕ;
  Buffer = ℕ;
  blank = λ n. 0;
  buffer = λ n. 0;
  fir_get_size = λ n t. (IppStatus.no_err, pos 8, pos 8);
  fir_get_size_32f_32fc = λ n. (IppStatus.no_err, pos 8, pos 8);
  fir_init_32f = λ h n spec. (IppStatus.no_err, n);
  fir_init_64f = λ h n spec. (IppStatus.no_err, n);
  fir_init_32fc = λ h n spec. (IppStatus.no_err, n);
  fir_init_64fc = λ h n spec. (IppStatus.no_err, n);
  fir_init_32f_32fc = λ h n spec. (IppStatus.no_err, n);
  fir_32f = copying;
  fir_64f = copying;
  fir_32fc = copying;
  fir_64fc = copying;
  fir_32f_32fc = copying;
}

-- one that answers the size query with an error
abbrev refusing : Ipp counting
refusing = record toy { fir_get_size = λ n t. (IppStatus.size_err, pos 0, pos 0) }

ipp-create_status_example :
    ((create (make_backend_plan refusing config)).status ≡ Status.invalid_argument)
    × (is_null (create (make_backend_plan refusing config)).value ≡ true)
ipp-create_status_example = ipp-create_status refusing config

-- a filter that adds to every sample the one before it, on blocks of two samples
abbrev adding_up : (block spec : ℕ) → (ℕ → ℕ) → Option (ℕ → ℕ) → ℕ → Answer
adding_up block spec source delay work = elim delay [
  | none ↦ (IppStatus.null_ptr_err, source, source, work)
  | some d ↦ (
    IppStatus.no_err,
    (λ i. source i + (if i == 0 then d 0 else source (i - 1))),
    (λ j. source 1),
    work,
  )
]

abbrev adding : Ipp counting
adding = record toy { fir_32f = adding_up }

adding-IsDocumented : IsDocumented adding s32f_t32f 2 2 1 two_sums
unfolding ipp_exec
adding-IsDocumented x n source none work reads held = absurd (omega arith)
adding-IsDocumented x n source (some d) work reads held =
    (refl, λ i hi. ground (arith, reads i, reads 0, held 0), λ j hj. ground (arith, reads 1))

-- two channels, two taps
abbrev running : IppFirState adding s32f_t32f
running = record {
  block_size = 2;
  batch = 2;
  tap_count = 2;
  spec = 2;
  spec_size = 8;
  work = 0;
  work_size = 8;
  delay_a = assign 2 0;
  delay_b = assign 2 0;
}

running-IsCallable : IsCallable running 0 8
running-IsCallable = record {
  blocks = omega arith;
  delays = omega arith;
  size = refl;
  apart = omega arith;
}

-- two channels, blocks of two samples, two taps
abbrev two_taps : FirPlanConfig counting
two_taps = record config { tap_count = 2 }

two_taps_valid : invalid_common counting two_taps ≡ false
unfolding invalid_common
two_taps_valid = refl

sizes : get_size adding s32f_t32f 2 ≡ (IppStatus.no_err, pos 8, pos 8)
unfolding get_size
sizes = refl

initialised :
    ipp_init adding s32f_t32f (taps CppType.float) 2 (adding.blank 8) ≡ (IppStatus.no_err, 2)
unfolding ipp_init
initialised = refl

ipp-Answers_example :
    (p : FirPlan (Memory ℕ)) × (create (make_backend_plan adding two_taps) ≡ of_value p)
    × AnswersAnew plain p 2 2 0 8
        (λ b. two_sums (signal b))
        (λ b. two_sums (fresh_signal b))
        two_blocks
        (fresh_block ∷ [])
        empty_memory
        empty_memory
ipp-Answers_example =
    ipp-Answers adding two_taps taps two_taps_valid refl s32f_t32f refl (omega arith) (omega arith)
      8 8 (omega arith) sizes 2 initialised two_sums adding-IsDocumented 0 8 (omega arith)
      (omega arith) (omega arith) signal fresh_signal two_blocks (fresh_block ∷ []) empty_memory
      empty_memory (omega arith) (omega arith)
