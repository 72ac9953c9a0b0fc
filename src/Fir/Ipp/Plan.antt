-- ===== src/Fir/Ipp/Plan.antt =====
-- The IPP backend behind the public interface: its plans serve the streams of their channels.
use mathlib.Core.Path.{subst}
use native.Mathlib.Nat.{zero-add}
use dsp_dispatch.Base.{
  ℕ, zero, suc, ◌+◌, ◌-◌, ◌*◌, ◌^◌, ◌<◌, ◌≡◌, refl, sym, ap, ◌∙◌, arith, size_mod, Disjoint, List,
  some, false, Memory, leb_of_lt, mul_size, inl, inr, Bool-cases,
}
use dsp_dispatch.Base.Int.{pos}
use dsp_dispatch.Base.Cpp.{CppType, Numbers}
use dsp_dispatch.Fir.Types.{Status, is_ok, FirPlanConfig, TapMemory, invalid_common, of_value}
use dsp_dispatch.Fir.Response.{Tracks, BlockOf}
use dsp_dispatch.Fir.Plan.{FirPlan, fir_plan, create}
use dsp_dispatch.Fir.Session.{plain, Carries, IsStreaming, AnswersAnew, IsStreaming-AnswersAnew}
use dsp_dispatch.Fir.Ipp.{
  Ipp, IppStatus, IppFirState, Special, Work, map_status, get_size, ipp_init, special, sample_type,
  delay_len, ipp_state, ipp_round, ipp_rounds, ipp_execute, ipp_clear, plan_of, make_typed,
  make_backend_plan,
}
use dsp_dispatch.Fir.Ipp.Stream.{IsDocumented, IsCallable, ipp_execute-response}

module _ {num : Numbers} {ipp : Ipp num} {sample tap : CppType} {k : Special sample tap} where
  -- The rounds fill the delay lines in place.
  ipp_rounds-size :
      (s : IppFirState ipp k) (n input output b : ℕ) (w : Work ipp k)
      → (ipp_rounds s n input output b w).1.delay_b.size ≡ w.delay_b.size
  unfolding ipp_rounds ipp_round
  ipp_rounds-size s zero input output b w = refl
  ipp_rounds-size s (suc n) input output b w =
      elim (Bool-cases (is_ok (map_status (ipp_round s input output b w).0))) [
        | inl fine ↦ rw fine (ipp_rounds-size s n input output (suc b) _)
        | inr failed ↦ rw failed refl
      ]

module _ {num : Numbers} {ipp : Ipp num} {sample tap : CppType} {k : Special sample tap}
    (s₀ : IppFirState ipp k) (y : (ℕ → num.Value sample) → ℕ → num.Value sample)
    (doc : IsDocumented ipp k s₀.spec s₀.block_size (delay_len s₀) y) (input output : ℕ)
    (callable : IsCallable s₀ input output) where
  open num use {Value}

  -- The states that calls reach from `s₀`, which have processed the signals `x` up to time `n`.
  pub record IsAt (x : ℕ → ℕ → Value sample) (s : IppFirState ipp k) (n : ℕ) : Type 0 where
    pub same : s ≡ record s₀ { work = s.work; delay_a = s.delay_a; delay_b = s.delay_b }
    pub size_a : s.delay_a.size ≡ s₀.batch * delay_len s₀
    pub size_b : s.delay_b.size ≡ s₀.batch * delay_len s₀
    pub held : Tracks num sample s₀.batch (delay_len s₀) s.delay_a.at x n

  module _ (x : ℕ → ℕ → Value sample) where
    abbrev Step : IppFirState ipp k → ℕ → Memory (Value sample) → Type 0
    Step s n mem =
        let (st, s', mem') = ipp_execute s input output mem in
        (st ≡ Status.ok)
        × BlockOf s₀.batch s₀.block_size (λ b. y (x b)) n (λ j. mem' (output + j))
        × IsAt x s' (n + s₀.block_size)

    abbrev rounds : IppFirState ipp k → Memory (Value sample) → Status × Work ipp k
    rounds s mem =
        ipp_rounds s s.batch input output 0
          (record { work = s.work; delay_b = s.delay_b; memory = mem })

    -- What a call leaves alone, and the sizes of the delay lines after one that succeeds.
    ipp_execute-same :
        (s : IppFirState ipp k) (mem : Memory (Value sample))
        → (ipp_execute s input output mem).0 ≡ Status.ok
        → let (st, s', mem') = ipp_execute s input output mem in
          (s' ≡ record s { work = s'.work; delay_a = s'.delay_a; delay_b = s'.delay_b })
          × (s'.delay_a.size ≡ s.delay_b.size)
          × (s'.delay_b.size ≡ s.delay_a.size)
    unfolding ipp_execute
    ipp_execute-same s mem ok =
        let kept = ipp_rounds-size s s.batch input output 0 _ in
        elim (Bool-cases (is_ok (rounds s mem).0)) [
          | inl fine ↦ rw fine (refl, kept, refl)
          | inr failed ↦ absurd (ground (arith, ok, failed))
        ]

    execute-Step :
        (s : IppFirState ipp k) (n : ℕ) (mem : Memory (Value sample))
        → IsAt x s n
        → BlockOf s₀.batch s₀.block_size x n (λ j. mem (input + j))
        → Step s n mem
    execute-Step s n mem at fed =
        subst (λ t. Step t n mem) (sym at.same)
          (let (succeeded, answered, held) =
              ipp_execute-response at_s input output callable' y doc x n at.held mem fed in
            let (same, size_a, size_b) = ipp_execute-same at_s mem succeeded in
            (
              succeeded,
              answered,
              record {
                same = same;
                size_a = size_a ∙ at.size_b;
                size_b = size_b ∙ at.size_a;
                held = held;
              },
            ))
      where
        at_s : IppFirState ipp k
        at_s = record s₀ { work = s.work; delay_a = s.delay_a; delay_b = s.delay_b }

        callable' : IsCallable at_s input output
        callable' = record {
          blocks = callable.blocks;
          delays = callable.delays;
          size = at.size_a;
          apart = callable.apart;
        }

  clear-IsAt :
      (x x' : ℕ → ℕ → Value sample) (s : IppFirState ipp k) (n : ℕ)
      → IsAt x s n
      → let (st, s') = ipp_clear s in (st ≡ Status.ok) × IsAt x' s' 0
  unfolding ipp_clear
  clear-IsAt x x' s n at = (
    refl,
    record {
      same = ap (λ t. (ipp_clear t).1) at.same;
      size_a = at.size_a;
      size_b = at.size_b;
      held = λ b j hb hj. rw (zero-add, leb_of_lt hj) refl;
    },
  )

-- A configuration and its taps, and what the library answers when `make_backend_plan` builds a plan.
module _ {num : Numbers} (ipp : Ipp num) (cfg : FirPlanConfig num) (h : TapMemory num)
    (accepted : invalid_common num cfg ≡ false) (given : cfg.taps ≡ some h) {tap : CppType}
    (k : Special (sample_type cfg.precision cfg.type) tap)
    (offered : special cfg.precision cfg.type ≡ some (tap, k)) (few_taps : cfg.tap_count < 2 ^ 31)
    (small_block : cfg.block_size < 2 ^ 31) (spec_size work_size : ℕ) (some_spec : 0 < spec_size)
    (sized : get_size ipp k cfg.tap_count ≡ (IppStatus.no_err, pos spec_size, pos work_size))
    (spec : ipp.Spec)
    (initialised : ipp_init ipp k (h tap) cfg.tap_count (ipp.blank spec_size)
      ≡ (IppStatus.no_err, spec)) where
  open num use {Value}

  abbrev sample_of : CppType
  sample_of = sample_type cfg.precision cfg.type

  abbrev first : IppFirState ipp k
  first = ipp_state ipp k cfg spec_size work_size spec

  abbrev plan : FirPlan (Memory (Value sample_of))
  plan = fir_plan (plan_of ipp k first)

  typed-plan : make_typed ipp k cfg h ≡ of_value (plan_of ipp k first)
  unfolding make_typed map_status
  typed-plan = rw (sized, initialised) (ground (arith, few_taps, small_block, some_spec))

  create-plan : create (make_backend_plan ipp cfg) ≡ of_value plan
  unfolding create make_backend_plan
  create-plan = simp (accepted, given, offered, typed-plan)

  module _ (y : (ℕ → Value sample_of) → ℕ → Value sample_of)
      (doc : IsDocumented ipp k spec cfg.block_size (cfg.tap_count - 1) y) (input output : ℕ)
      (blocks : cfg.batch * cfg.block_size < size_mod)
      (delays : cfg.batch * (cfg.tap_count - 1) < size_mod)
      (apart : Disjoint input
        (cfg.batch * cfg.block_size)
        output
        (cfg.batch * cfg.block_size)) where
    first-IsCallable : IsCallable first input output
    unfolding ipp_state mul_size
    first-IsCallable = record {
      blocks = blocks;
      delays = delays;
      size = ground (arith, delays);
      apart = apart;
    }

    zeros-held :
        (x : ℕ → ℕ → Value sample_of)
        → Tracks num sample_of cfg.batch (cfg.tap_count - 1) (λ _. num.zero sample_of) x 0
    zeros-held x b j hb hj = rw (zero-add, leb_of_lt hj) refl

    plan-IsStreaming : IsStreaming plain plan cfg.batch cfg.block_size input output (λ x b. y (x b))
    unfolding ipp_state
    plan-IsStreaming = record {
      Has = IsAt first y doc input output first-IsCallable;
      start = λ x. record {
        same = refl;
        size_a = first-IsCallable.size;
        size_b = first-IsCallable.size;
        held = zeros-held x;
      };
      step = λ x s n mem. execute-Step first y doc input output first-IsCallable x s n mem;
      restart = clear-IsAt first y doc input output first-IsCallable;
    }

    -- Over a library that does what IPP documents, where it supports the configuration, names sizes
    -- that can be allocated and initialises the specification, a valid configuration with counts
    -- that fit in `int`, and with buffers that do not overlap and, like the delay lines, fit in the
    -- address space, yields a plan; every session with it is answered with success and the filtered
    -- signals, across the borders of blocks, and after `clear` the same holds of the signals that
    -- begin then.
    pub ipp-Answers :
        (x x' : ℕ → ℕ → Value sample_of) (us vs : List (ℕ → Value sample_of))
        (mem mem' : Memory (Value sample_of))
        → Carries cfg.batch cfg.block_size x 0 us
        → Carries cfg.batch cfg.block_size x' 0 vs
        → (p : FirPlan (Memory (Value sample_of))) × (create (make_backend_plan ipp cfg)
            ≡ of_value p)
          × AnswersAnew plain p cfg.batch cfg.block_size input output
              (λ b. y (x b))
              (λ b. y (x' b))
              us
              vs
              mem
              mem'
    ipp-Answers x x' us vs mem mem' carried carried' = (
      plan,
      create-plan,
      IsStreaming-AnswersAnew plan-IsStreaming x x' us vs mem mem' carried carried',
    )
