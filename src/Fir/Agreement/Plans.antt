-- ===== src/Fir/Agreement/Plans.antt =====
-- A plan of every backend for a real F32 configuration, and its sessions against the response to the
-- taps, summed as the portable backend sums it.
use native.Mathlib.Nat.{mul-le-mul_left, lt_of_le_of_lt}
use dsp_dispatch.Base.{
  ℕ, ◌+◌, ◌-◌, ◌*◌, ◌^◌, ◌<◌, ◌≤◌, ◌≡◌, refl, arith, size_mod, Memory, Disjoint, List, some, false,
}
use dsp_dispatch.Base.Machine.{Machine}
use dsp_dispatch.Base.Cpp.{CppType, Numbers}
use dsp_dispatch.Fir.Types.{
  FirType, FirPrecision, TapMemory, FirPlanConfig, invalid_common, of_value,
}
use dsp_dispatch.Fir.Response.{response}
use dsp_dispatch.Fir.Plan.{FirPlan, create}
use dsp_dispatch.Fir.Session.{View, plain, counted, session, Carries, Answers}
use dsp_dispatch.Fir.Bank.{Filter}
use dsp_dispatch.Fir.Bank.Stream.{IsFiltering}
use dsp_dispatch.Fir.Portable
use dsp_dispatch.Fir.Portable.{history_len_of}
use dsp_dispatch.Fir.Portable.Plan.{IsSized, portable-Answers}
use dsp_dispatch.Fir.Cmsis
use dsp_dispatch.Fir.Cmsis.{ArmFirs}
use dsp_dispatch.Fir.Cmsis.Stream.{IsDocumented}
use dsp_dispatch.Fir.Cmsis.Plan.{cmsis_fir-Answers}
use dsp_dispatch.Base.Int.{pos}
use dsp_dispatch.Fir.Ipp
use dsp_dispatch.Fir.Ipp.{Ipp, IppStatus, s32f_t32f, get_size, ipp_init}
use dsp_dispatch.Fir.Ipp.Plan.{ipp-Answers}
use dsp_dispatch.Fir.Kfr
use dsp_dispatch.Fir.Kfr.Plan.{kfr_real-Answers}
use dsp_dispatch.Fir.Liquid
use dsp_dispatch.Fir.Liquid.{Liquid}
use dsp_dispatch.Fir.Liquid.Plan.{liquid-Answers}

-- Counts above 0 that every backend can cast, and buffers that fit in the address space.
pub record IsCommon (taps block batch : ℕ) : Type 0 where
  pub some_taps : 0 < taps
  pub some_block : 0 < block
  pub some_batch : 0 < batch
  pub few_taps : taps < 2 ^ 16
  pub small_block : block < 2 ^ 31
  pub buffers : batch * (taps + block - 1) < size_mod

module _ {taps block batch : ℕ} (common : IsCommon taps block batch) where
  less : (n : ℕ) → n ≤ taps + block - 1 → batch * n < size_mod
  less n le = lt_of_le_of_lt (mul-le-mul_left batch le) common.buffers

  config-IsSized : IsSized taps block batch
  config-IsSized = record {
    fits = ground (arith, common.few_taps, common.small_block);
    blocks = less block (omega (arith, common.some_taps));
    histories = less (history_len_of taps) (ground (arith, common.some_taps, common.some_block));
  }

module _ (num : Numbers) (h : TapMemory num) where
  open num use {Value}

  -- a configuration of type `Real` and F32
  abbrev pub config : (taps block batch : ℕ) → FirPlanConfig num
  config taps block batch = record {
    type = FirType.real;
    precision = FirPrecision.f32;
    taps = some h;
    tap_count = taps;
    block_size = block;
    batch = batch;
  }

  -- the filter that the portable backend applies
  abbrev pub reference : (taps : ℕ) → (ℕ → Value CppType.float) → ℕ → Value CppType.float
  reference taps = response num CppType.float CppType.float taps (h CppType.float)

-- IPP gives sizes and a specification for the taps, with which it filters by the response to them.
pub record IsOffered {num : Numbers} (ipp : Ipp num) (h : TapMemory num) (taps block : ℕ)
    : Type 0 where
  pub spec_size : ℕ
  pub work_size : ℕ
  pub some_spec : 0 < spec_size
  pub sized : get_size ipp s32f_t32f taps ≡ (IppStatus.no_err, pos spec_size, pos work_size)
  pub spec : ipp.Spec
  pub initialised :
      ipp_init ipp s32f_t32f (h CppType.float) taps (ipp.blank spec_size) ≡ (IppStatus.no_err, spec)
  pub documented :
      Ipp.Stream.IsDocumented ipp s32f_t32f spec block (taps - 1) (reference num h taps)

module _ (num : Numbers) (h : TapMemory num) (taps block batch : ℕ)
    (common : IsCommon taps block batch) where
  open num use {Value}

  abbrev pub Sample : Type 0
  Sample = Value CppType.float

  abbrev cfg : FirPlanConfig num
  cfg = config num h taps block batch

  config-accepted : invalid_common num cfg ≡ false
  unfolding invalid_common
  config-accepted = ground (arith, common.some_taps, common.some_block, common.some_batch)

  module _ (input output : ℕ) (apart : Disjoint input (batch * block) output (batch * block))
      (x : ℕ → ℕ → Sample) (us : List (ℕ → Sample)) (carried : Carries batch block x 0 us) where
    -- A session is answered with the reference.
    abbrev pub Serves : {N : Type 0} → View N Sample → FirPlan N → N → Type 0
    Serves view q m =
        Answers batch block (λ b. reference num h taps (x b)) 0 us
          (session view q input output (batch * block) us m).0

    pub portable-Serves :
        (granted : ℕ → ℕ) (mem : Memory Sample)
        → (p : FirPlan (Memory Sample)) × (create (Portable.make_backend_plan num granted cfg)
            ≡ of_value p)
          × Serves plain p mem
    portable-Serves granted mem =
        portable-Answers granted cfg h config-accepted refl (config-IsSized common) input output
          apart x us mem carried

    pub cmsis_fir-Serves :
        (arms : ArmFirs num)
        → IsDocumented num CppType.float arms.f32 taps block
            (h CppType.float)
            (reference num h taps)
        → (mem : Memory Sample)
        → (q : FirPlan (Memory Sample)) × (create (Cmsis.make_backend_plan arms cfg) ≡ of_value q)
          × Serves plain q mem
    cmsis_fir-Serves arms doc mem =
        let (q, made, served) =
          cmsis_fir-Answers arms cfg h config-accepted refl refl common.few_taps
            (omega (arith, common.small_block)) (reference num h taps) doc
            (less common block (omega (arith, common.some_taps))) common.buffers input output apart
            x x us us mem mem carried carried in
        (q, made, served.0)

    pub liquid-Serves :
        (liquid : Liquid num)
        → IsFiltering liquid.rrrf (h CppType.float) taps block (reference num h taps)
        → (live : ℕ) (m : Machine Sample)
        → (r : FirPlan (Machine Sample)) × (create (Liquid.make_backend_plan liquid cfg live).0
            ≡ of_value r)
          × Serves counted r m
    liquid-Serves liquid filtering live m =
        let (r, made, served) =
          liquid-Answers liquid cfg h config-accepted refl refl (omega (arith, common.few_taps))
            (omega (arith, common.small_block)) (reference num h taps) filtering input output live
            (less common block (omega (arith, common.some_taps))) apart x x us us m m carried
            carried in
        (r, made, served.0)

    pub kfr_real-Serves :
        (kfr : Filter Sample Sample)
        → ((given : ℕ → Sample)
            → ((k : ℕ) → k < taps → given k ≡ h CppType.float k)
            → IsFiltering kfr given taps block (reference num h taps))
        → (mem : Memory Sample)
        → (s : FirPlan (Memory Sample)) × (create (Kfr.make_backend_plan num kfr cfg) ≡ of_value s)
          × Serves plain s mem
    kfr_real-Serves kfr documented mem =
        let (s, made, served) =
          kfr_real-Answers num kfr cfg h config-accepted refl refl refl (reference num h taps)
            documented input output (less common block (omega (arith, common.some_taps))) apart x x
            us us mem mem carried carried in
        (s, made, served.0)

    pub ipp-Serves :
        (ipp : Ipp num)
        → IsOffered ipp h taps block
        → (mem : Memory Sample)
        → (t : FirPlan (Memory Sample)) × (create (Ipp.make_backend_plan ipp cfg) ≡ of_value t)
          × Serves plain t mem
    ipp-Serves ipp offered mem =
        let (t, made, served) =
          ipp-Answers ipp cfg h config-accepted refl s32f_t32f refl (omega (arith, common.few_taps))
            common.small_block offered.spec_size offered.work_size offered.some_spec offered.sized
            offered.spec offered.initialised (reference num h taps) offered.documented input output
            (less common block (omega (arith, common.some_taps)))
            (less common (taps - 1) (omega (arith, common.some_block))) apart x x us us mem mem
            carried carried in
        (t, made, served.0)
