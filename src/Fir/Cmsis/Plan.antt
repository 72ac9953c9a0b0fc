-- ===== src/Fir/Cmsis/Plan.antt =====
-- The CMSIS-DSP backend behind the public interface: its plans serve the streams of their channels.
use mathlib.Core.Path.{subst}
use native.Mathlib.Nat.{zero-add}
use dsp_dispatch.Base.{
  ℕ, ◌+◌, ◌-◌, ◌*◌, ◌^◌, ◌<◌, ◌≡◌, refl, sym, ap, ◌∙◌, arith, size_mod, Disjoint, List, some, false,
  Memory, Vector, leb_of_lt,
}
use dsp_dispatch.Base.Cpp.{CppType, Numbers}
use dsp_dispatch.Fir.Types.{Status, FirType, FirPlanConfig, TapMemory, invalid_common, of_value}
use dsp_dispatch.Fir.Response.{BlockOf}
use dsp_dispatch.Fir.Plan.{FirPlan, fir_plan, create}
use dsp_dispatch.Fir.Session.{plain, Carries, IsStreaming, AnswersAnew, IsStreaming-AnswersAnew}
use dsp_dispatch.Fir.Cmsis.{
  ArmFir, ArmFirs, CmsisFirState, element, cmsis_traits, new_state, reversed_taps, cmsis_execute,
  cmsis_clear, plan_of, make_typed, make_backend_plan,
}
use dsp_dispatch.Fir.Cmsis.Stream.{IsDocumented, IsCallable, Holds, cmsis_execute-response}
use dsp_dispatch.Fir.Cmsis.Start.{IsStarted, new_state-IsStarted, reversed_taps_lem}

module _ (num : Numbers) (sample : CppType) (arm : ArmFir (num.Value sample))
    (s₀ : CmsisFirState arm) (h : ℕ → num.Value sample) (callable : IsCallable num sample arm s₀ h)
    (y : (ℕ → num.Value sample) → ℕ → num.Value sample)
    (doc : IsDocumented num sample arm s₀.tap_count s₀.block_size h y) where
  open num use {Value}

  abbrev with_state : Vector (Value sample) → CmsisFirState arm
  with_state v = record s₀ { state = v }

  abbrev HoldsIn : (ℕ → ℕ → Value sample) → ℕ → Vector (Value sample) → Type 0
  HoldsIn x n v = Holds num sample arm s₀ h callable y doc x n v

  -- The states that calls reach from `s₀`: only the slices change.
  pub record IsAt (x : ℕ → ℕ → Value sample) (s : CmsisFirState arm) (n : ℕ) : Type 0 where
    pub same : s ≡ with_state s.state
    pub held : HoldsIn x n s.state

  zeros-IsAt :
      (x : ℕ → ℕ → Value sample) (s : CmsisFirState arm)
      → s ≡ with_state s.state
      → ((a : ℕ) → s.state.at a ≡ num.zero sample)
      → IsAt x s 0
  zeros-IsAt x s same zeros = record {
    same = same;
    held = λ b j hb hj. zeros _ ∙ rw (zero-add, leb_of_lt hj) refl;
  }

  clear-IsAt :
      (x x' : ℕ → ℕ → Value sample) (s : CmsisFirState arm) (n : ℕ)
      → IsAt x s n
      → let (st, s') = cmsis_clear arm (num.zero sample) s in (st ≡ Status.ok) × IsAt x' s' 0
  unfolding cmsis_clear
  clear-IsAt x x' s n at = (
    refl,
    zeros-IsAt x' _ (ap (λ t. (cmsis_clear arm (num.zero sample) t).1) at.same) (λ a. refl),
  )

  module _ (input output : ℕ)
      (apart : Disjoint input (s₀.batch * s₀.block_size) output (s₀.batch * s₀.block_size))
      (x : ℕ → ℕ → Value sample) where
    abbrev Step : CmsisFirState arm → ℕ → Memory (Value sample) → Type 0
    Step s n mem =
        let (st, s', mem') = cmsis_execute arm s input output mem in
        (st ≡ Status.ok)
        × BlockOf s₀.batch s₀.block_size (λ b. y (x b)) n (λ j. mem' (output + j))
        × IsAt x s' (n + s₀.block_size)

    execute-Step :
        (s : CmsisFirState arm) (n : ℕ) (mem : Memory (Value sample))
        → IsAt x s n
        → BlockOf s₀.batch s₀.block_size x n (λ j. mem (input + j))
        → Step s n mem
    execute-Step s n mem at fed =
        subst (λ t. Step t n mem) (sym at.same)
          (let (succeeded, answered, held, same) =
              cmsis_execute-response num sample arm (with_state s.state) h callable' y doc input
                output apart x n mem at.held fed in
            (succeeded, answered, record { same = same; held = held }))
      where
        callable' : IsCallable num sample arm (with_state s.state) h
        callable' = record {
          some_taps = callable.some_taps;
          few_taps = callable.few_taps;
          some_block = callable.some_block;
          small_block = callable.small_block;
          blocks = callable.blocks;
          slices = callable.slices;
          reversed = callable.reversed;
          made = callable.made;
        }

-- A configuration and its taps, as `make_backend_plan` sees them when it builds a plan.
module _ {num : Numbers} (arms : ArmFirs num) (cfg : FirPlanConfig num) (h : TapMemory num)
    (accepted : invalid_common num cfg ≡ false) (given : cfg.taps ≡ some h)
    (real : cfg.type ≡ FirType.real) (few_taps : cfg.tap_count < 2 ^ 16)
    (small_block : cfg.block_size < 2 ^ 32) where
  open num use {Value}

  abbrev sample_of : CppType
  sample_of = element cfg.precision

  abbrev arm_of : ArmFir (Value sample_of)
  arm_of = cmsis_traits arms cfg.precision

  abbrev first : CmsisFirState arm_of
  first = new_state arm_of (num.zero sample_of) cfg.block_size cfg.batch cfg.tap_count (h sample_of)

  abbrev plan : FirPlan (Memory (Value sample_of))
  plan = fir_plan (plan_of arms cfg.precision first)

  create-plan : create (make_backend_plan arms cfg) ≡ of_value plan
  unfolding create make_backend_plan make_typed
  create-plan = simp (accepted, given, real) (ground (arith, few_taps, small_block))

  positive : (0 < cfg.tap_count) × (0 < cfg.block_size)
  unfolding invalid_common
  positive = (ground (arith, accepted), ground (arith, accepted))

  module _ (y : (ℕ → Value sample_of) → ℕ → Value sample_of)
      (doc : IsDocumented num sample_of arm_of cfg.tap_count cfg.block_size (h sample_of) y)
      (blocks : cfg.batch * cfg.block_size < size_mod)
      (slices : cfg.batch * (cfg.tap_count + cfg.block_size - 1) < size_mod) where
    started :
        IsStarted num sample_of arm_of cfg.block_size cfg.batch cfg.tap_count
          (h sample_of)
          y
          doc
          positive.0
          few_taps
          positive.1
          small_block
          blocks
          slices
          cfg.batch
          first
    started =
        new_state-IsStarted num sample_of arm_of cfg.block_size cfg.batch cfg.tap_count
          (h sample_of) y doc positive.0 few_taps positive.1 small_block blocks slices

    -- the first state, with its counts written out
    abbrev begun : CmsisFirState arm_of
    begun = record {
      block_size = cfg.block_size;
      batch = cfg.batch;
      tap_count = cfg.tap_count;
      coeffs = reversed_taps arm_of (num.zero sample_of) cfg.tap_count (h sample_of);
      state = first.state;
      inst = first.inst;
    }

    begun-IsCallable : IsCallable num sample_of arm_of begun (h sample_of)
    begun-IsCallable = record {
      some_taps = positive.0;
      few_taps = few_taps;
      some_block = positive.1;
      small_block = small_block;
      blocks = blocks;
      slices = slices;
      reversed = reversed_taps_lem num sample_of arm_of cfg.tap_count (h sample_of) few_taps;
      made = started.made;
    }

    module _ (input output : ℕ)
        (apart : Disjoint input
          (cfg.batch * cfg.block_size)
          output
          (cfg.batch * cfg.block_size)) where
      begun-IsStreaming :
          IsStreaming plain
            (fir_plan (plan_of arms cfg.precision begun))
            cfg.batch
            cfg.block_size
            input
            output
            (λ x b. y (x b))
      begun-IsStreaming = record {
        Has = IsAt num sample_of arm_of begun (h sample_of) begun-IsCallable y doc;
        start = λ x.
            zeros-IsAt num sample_of arm_of begun (h sample_of) begun-IsCallable y doc x begun refl
              started.cleared;
        step = λ x s n mem.
            execute-Step num sample_of arm_of begun (h sample_of) begun-IsCallable y doc input
              output apart x s n mem;
        restart = clear-IsAt num sample_of arm_of begun (h sample_of) begun-IsCallable y doc;
      }

      plan-IsStreaming :
          IsStreaming plain plan cfg.batch cfg.block_size input output (λ x b. y (x b))
      plan-IsStreaming =
          subst
            (λ s.
              IsStreaming plain (fir_plan (plan_of arms cfg.precision s)) cfg.batch cfg.block_size
                input output (λ x b. y (x b)))
            (sym started.same) begun-IsStreaming

      -- Over a library that does what CMSIS-DSP documents for the configured taps, a valid
      -- configuration of type `Real`, with a number of taps that fits in `uint16_t` and a block size
      -- that fits in `uint32_t`, and with buffers that do not overlap and, like the state buffer, fit
      -- in the address space, yields a plan; every session with it is answered with success and the
      -- filtered signals, across the borders of blocks, and after `clear` the same holds of the
      -- signals that begin then.
      pub cmsis_fir-Answers :
          (x x' : ℕ → ℕ → Value sample_of) (us vs : List (ℕ → Value sample_of))
          (mem mem' : Memory (Value sample_of))
          → Carries cfg.batch cfg.block_size x 0 us
          → Carries cfg.batch cfg.block_size x' 0 vs
          → (p : FirPlan (Memory (Value sample_of))) × (create (make_backend_plan arms cfg)
              ≡ of_value p)
            × AnswersAnew plain p cfg.batch cfg.block_size input output
                (λ b. y (x b))
                (λ b. y (x' b))
                us
                vs
                mem
                mem'
      cmsis_fir-Answers x x' us vs mem mem' carried carried' = (
        plan,
        create-plan,
        IsStreaming-AnswersAnew plan-IsStreaming x x' us vs mem mem' carried carried',
      )
