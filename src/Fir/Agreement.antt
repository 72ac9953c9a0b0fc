-- ===== src/Fir/Agreement.antt =====
-- The backends of include/fir/fir.h against one another: a program may be built with one or the other.
-- The portable backend is the reference, at the configurations that every backend accepts.
mod Plans
mod Tests
use dsp_dispatch.Base.{ℕ, ◌-◌, ◌*◌, ◌<◌, ◌≡◌, Memory, Disjoint, List}
use dsp_dispatch.Base.Machine.{Machine}
use dsp_dispatch.Base.Cpp.{CppType, Numbers}
use dsp_dispatch.Fir.Types.{Status, TapMemory, of_value}
use dsp_dispatch.Fir.Plan.{FirPlan, create}
use dsp_dispatch.Fir.Session.{plain, counted, session, Carries, Answers}
use dsp_dispatch.Fir.Samples.{sample_at, total, Answers-same}
use dsp_dispatch.Fir.Bank.{Filter}
use dsp_dispatch.Fir.Bank.Stream.{IsFiltering}
use dsp_dispatch.Fir.Portable
use dsp_dispatch.Fir.Cmsis
use dsp_dispatch.Fir.Cmsis.{ArmFirs}
use dsp_dispatch.Fir.Cmsis.Stream.{IsDocumented}
use dsp_dispatch.Fir.Ipp
use dsp_dispatch.Fir.Ipp.{Ipp}
use dsp_dispatch.Fir.Kfr
use dsp_dispatch.Fir.Liquid
use dsp_dispatch.Fir.Liquid.{Liquid}
use dsp_dispatch.Fir.Agreement.Plans.{
  IsCommon, IsOffered, config, reference, portable-Serves, cmsis_fir-Serves, liquid-Serves,
  kfr_real-Serves, ipp-Serves,
}

-- Two sessions on the same blocks, by their answers, give the same samples of every channel.
abbrev pub Agree :
    {A : Type 0} (batch block : ℕ) → List (ℕ → A) → (one other : List (Status × (ℕ → A))) → Type 0
Agree batch block us one other =
    (b n : ℕ) → b < batch → n < total block us → sample_at block one b n ≡ sample_at block other b n

-- The five backends have plans for a configuration, and the sessions with them, on memories with the
-- same contents, agree with those of the portable one.
abbrev pub AllAgree :
    {num : Numbers} (granted : ℕ → ℕ) (arms : ArmFirs num) (liquid : Liquid num)
    (kfr : Filter (num.Value CppType.float) (num.Value CppType.float)) (ipp : Ipp num)
    (h : TapMemory num) (taps block batch input output live : ℕ)
    → List (ℕ → num.Value CppType.float)
    → Memory (num.Value CppType.float)
    → Type 1
AllAgree {num} granted arms liquid kfr ipp h taps block batch input output live us mem =
    let cfg = config num h taps block batch in
    let total = batch * block in
    (p q s t : FirPlan (Memory (num.Value CppType.float))) × (r : FirPlan
      (Machine (num.Value CppType.float)))
    × (create (Portable.make_backend_plan num granted cfg) ≡ of_value p)
    × (create (Cmsis.make_backend_plan arms cfg) ≡ of_value q)
    × (create (Kfr.make_backend_plan num kfr cfg) ≡ of_value s)
    × (create (Ipp.make_backend_plan ipp cfg) ≡ of_value t)
    × (create (Liquid.make_backend_plan liquid cfg live).0 ≡ of_value r)
    × (let answers = (session plain p input output total us mem).0 in
        Agree batch block us answers (session plain q input output total us mem).0
        × Agree batch block us answers (session plain s input output total us mem).0
        × Agree batch block us answers (session plain t input output total us mem).0
        × Agree batch block us answers
            (session counted r input output total us (record { memory = mem; live = live })).0)

module _ (num : Numbers) (h : TapMemory num) (taps block batch : ℕ)
    (common : IsCommon taps block batch) (input output : ℕ)
    (apart : Disjoint input (batch * block) output (batch * block))
    (x : ℕ → ℕ → num.Value CppType.float) (us : List (ℕ → num.Value CppType.float))
    (carried : Carries batch block x 0 us) where
  abbrev Sample : Type 0
  Sample = num.Value CppType.float

  agree :
      (one other : List (Status × (ℕ → Sample)))
      → Answers batch block (λ b. reference num h taps (x b)) 0 us one
      → Answers batch block (λ b. reference num h taps (x b)) 0 us other
      → Agree batch block us one other
  agree one other answered answered' b n hb hn =
      Answers-same batch block block (λ c. reference num h taps (x c)) us us one other answered
        answered' b n hb hn hn

  -- For a configuration of type `Real` and F32 with counts that every backend can cast, and over
  -- libraries CMSIS-DSP, liquid-dsp, KFR and IPP that document the filter with the response to the
  -- taps, summed as the portable backend sums it, IPP offering its sizes and a specification for
  -- them: all five backends give a plan, and on buffers that do
  -- not overlap every session with one of them gives the same samples of every channel as the
  -- session with the portable one.
  pub backends_agree :
      (granted : ℕ → ℕ) (arms : ArmFirs num) (liquid : Liquid num) (kfr : Filter Sample Sample)
      (ipp : Ipp num)
      → IsDocumented num CppType.float arms.f32 taps block (h CppType.float) (reference num h taps)
      → IsFiltering liquid.rrrf (h CppType.float) taps block (reference num h taps)
      → ((given : ℕ → Sample)
          → ((k : ℕ) → k < taps → given k ≡ h CppType.float k)
          → IsFiltering kfr given taps block (reference num h taps))
      → IsOffered ipp h taps block
      → (live : ℕ) (mem : Memory Sample)
      → AllAgree granted arms liquid kfr ipp h taps block batch input output live us mem
  backends_agree granted arms liquid kfr ipp doc filtering documented offered live mem =
      let (p, portable, answered) =
        portable-Serves num h taps block batch common input output apart x us carried granted mem in
      let (q, cmsis, answered_q) =
        cmsis_fir-Serves num h taps block batch common input output apart x us carried arms doc
          mem in
      let (s, made, answered_s) =
        kfr_real-Serves num h taps block batch common input output apart x us carried kfr documented
          mem in
      let (t, yielded, answered_t) =
        ipp-Serves num h taps block batch common input output apart x us carried ipp offered mem in
      let (r, counting, answered_r) =
        liquid-Serves num h taps block batch common input output apart x us carried liquid filtering
          live (record { memory = mem; live = live }) in
      (
        p,
        q,
        s,
        t,
        r,
        portable,
        cmsis,
        made,
        yielded,
        counting,
        (
          agree _ _ answered answered_q,
          agree _ _ answered answered_s,
          agree _ _ answered answered_t,
          agree _ _ answered answered_r,
        ),
      )
