-- ===== src/Fir/Agreement/Tests.antt =====
-- The backends against one another at a concrete configuration and libraries.
use dsp_dispatch.Base.{
  ℕ, ◌+◌, ◌-◌, ◌*◌, ◌<◌, ◌≡◌, refl, ◌∙◌, arith, if◌then◌else◌, ◌==◌, leb, Option, none, some,
}
use dsp_dispatch.Base.Cpp.{CppType}
use dsp_dispatch.Fir.Response.{dot}
use dsp_dispatch.Fir.Examples.{counting, taps, signal, two_blocks, empty_memory}
use dsp_dispatch.Fir.Bank.{Filter}
use dsp_dispatch.Fir.Bank.Stream.{IsFiltering}
use dsp_dispatch.Fir.Cmsis.Examples.{
  weighing, weighed, both, weighing-IsDocumented, window, window-past,
}
use dsp_dispatch.Fir.Cmsis.Stream.{IsDocumented}
use dsp_dispatch.Fir.Liquid.{Liquid}
use dsp_dispatch.Base.Int.{pos}
use dsp_dispatch.Fir.Ipp.{Ipp, IppStatus, s32f_t32f, ipp_exec, ipp_init, get_size}
use dsp_dispatch.Fir.Ipp.Stream
use dsp_dispatch.Fir.Agreement.Plans.{IsCommon, IsOffered, reference}
use dsp_dispatch.Fir.Agreement.{AllAgree, backends_agree}

common : IsCommon 3 2 2
common = omega arith

weighed-reference : (x : ℕ → ℕ) (n : ℕ) → weighed x n ≡ reference counting taps 3 x n
unfolding dot
weighed-reference x n = ground arith

weighing-documents :
    IsDocumented counting CppType.float weighing 3 2
      (taps CppType.float)
      (reference counting taps 3)
weighing-documents = record {
  cleared = weighing-IsDocumented.cleared;
  run = λ x n i coeffs state source made reversed held read.
      let (out, left) =
        weighing-IsDocumented.run x n i coeffs state source made reversed held read in
      ((λ k hk. out k hk ∙ weighed-reference x (n + k)), left);
}

-- A filter object that weighs every sample and the two before it with its taps.
record Line : Type 0 where
  weights : ℕ → ℕ
  older : ℕ
  newest : ℕ

-- the two samples before, and a block
abbrev seen : Line → (ℕ → ℕ) → ℕ → ℕ
seen q u i = if i == 0 then q.older else if i == 1 then q.newest else u (i - 2)

abbrev delaying : Filter ℕ ℕ
delaying = record {
  Object = Line;
  create = λ taps_of count. record { weights = taps_of; older = 0; newest = 0 };
  execute_block = λ q u block. (
    (λ i.
        q.weights 0 * seen q u (i + 2) + q.weights 1 * seen q u (i + 1) + q.weights 2 * seen q u i),
    record q { older = seen q u block; newest = seen q u (block + 1) },
  );
  reset = λ q. record q { older = 0; newest = 0 };
}

-- The object has the taps 1, 10, 19 and the two samples before time `n`.
record HasSeen (x : ℕ → ℕ) (n : ℕ) (q : Line) : Type 0 where
  first : q.weights 0 ≡ 1
  second : q.weights 1 ≡ 10
  third : q.weights 2 ≡ 19
  older : q.older ≡ (if leb 2 n then x (n - 2) else 0)
  newest : q.newest ≡ (if leb 1 n then x (n - 1) else 0)

seen-past :
    (x : ℕ → ℕ) (n : ℕ) (q : Line) (u : ℕ → ℕ)
    → HasSeen x n q
    → ((m : ℕ) → m < 2 → u m ≡ x (n + m))
    → (i : ℕ) → i < 4
    → seen q u i ≡ (if leb 2 (n + i) then x (n + i - 2) else 0)
seen-past x n q u has read i hi = ground (arith, has.older, has.newest, read (i - 2))

delaying-filters :
    (given : ℕ → ℕ)
    → ((k : ℕ) → k < 3 → given k ≡ taps CppType.float k)
    → IsFiltering delaying given 3 2 (reference counting taps 3)
delaying-filters given same = record {
  Given = HasSeen;
  created = λ x. record {
    first = same 0 (omega arith);
    second = same 1 (omega arith);
    third = same 2 (omega arith);
    older = refl;
    newest = refl;
  };
  run = λ x n q u has read.
      let at = seen-past x n q u has read in
      (
        (λ i hi.
            rw
              (
                has.first,
                has.second,
                has.third,
                at (i + 2) (omega arith),
                at (i + 1) (omega arith),
                at i (omega arith),
              )
              (ground arith)
            ∙ weighed-reference x (n + i)),
        record {
          first = has.first;
          second = has.second;
          third = has.third;
          older = at 2 (omega arith) ∙ ground arith;
          newest = at 3 (omega arith) ∙ ground arith;
        },
      );
  fresh = λ x x' n q has. record {
    first = has.first;
    second = has.second;
    third = has.third;
    older = refl;
    newest = refl;
  };
}

abbrev liquid : Liquid counting
liquid = record { rrrf = delaying; crcf = delaying; cccf = delaying }

-- An IPP whose specifications are the taps, and that weighs as the instances of `weighing` do.
abbrev weigh :
    (block : ℕ) (spec source : ℕ → ℕ) (delay : Option (ℕ → ℕ)) (work : ℕ)
    → IppStatus × (ℕ → ℕ) × (ℕ → ℕ) × ℕ
weigh block spec source delay work = elim delay [
  | none ↦ (IppStatus.null_ptr_err, source, source, work)
  | some d ↦ (
    IppStatus.no_err,
    (λ k.
        spec 0 * window d source (k + 2)
        + spec 1 * window d source (k + 1)
        + spec 2 * window d source k),
    (λ j. window d source (j + 2)),
    work,
  )
]

abbrev offering : Ipp counting
offering = record {
  Spec = ℕ → ℕ;
  Buffer = ℕ;
  blank = λ n j. 0;
  buffer = λ n. 0;
  fir_get_size = λ n t. (IppStatus.no_err, pos 8, pos 8);
  fir_get_size_32f_32fc = λ n. (IppStatus.no_err, pos 8, pos 8);
  fir_init_32f = λ h n spec. (IppStatus.no_err, h);
  fir_init_64f = λ h n spec. (IppStatus.no_err, h);
  fir_init_32fc = λ h n spec. (IppStatus.no_err, h);
  fir_init_64fc = λ h n spec. (IppStatus.no_err, h);
  fir_init_32f_32fc = λ h n spec. (IppStatus.no_err, h);
  fir_32f = weigh;
  fir_64f = weigh;
  fir_32fc = weigh;
  fir_64fc = weigh;
  fir_32f_32fc = weigh;
}

weigh-IsDocumented :
    Stream.IsDocumented offering s32f_t32f (taps CppType.float) 2 2 (reference counting taps 3)
unfolding ipp_exec
weigh-IsDocumented x n source none work read held = absurd (omega arith)
weigh-IsDocumented x n source (some d) work read held =
    let at = window-past x n d source held read in
    (
      refl,
      (λ i hi.
          rw (at i (omega arith), at (i + 1) (omega arith), at (i + 2) (omega arith)) (ground arith)
          ∙ weighed-reference x (n + i)),
      (λ j hj. at (j + 2) (omega arith) ∙ ground arith),
    )

offered : IsOffered offering taps 3 2
unfolding ipp_init get_size
offered = record {
  spec_size = 8;
  work_size = 8;
  some_spec = omega arith;
  sized = refl;
  spec = taps CppType.float;
  initialised = refl;
  documented = weigh-IsDocumented;
}

backends_agree_example :
    AllAgree (λ n. n) both liquid delaying offering taps 3 2 2 0 8 5 two_blocks empty_memory
backends_agree_example =
    backends_agree counting taps 3 2 2 common 0 8 (omega arith) signal two_blocks (omega arith)
      (λ n. n) both liquid delaying offering weighing-documents
      (delaying-filters (taps CppType.float) (λ k h. refl)) delaying-filters offered 5 empty_memory
