-- ===== src/Fir/Portable/Plan.antt =====
-- The portable backend behind the public interface: `FirPlan::create`, sessions and `clear`.
use mathlib.Core.Path.{subst}
use mathlib.Core.Option.{some-injective}
use dsp_dispatch.Base.{
  ℕ, ◌+◌, ◌*◌, ◌<◌, ◌≡◌, refl, sym, ap, ◌∙◌, Memory, Vector, Disjoint, List, some, false, size_mod,
  leb_of_lt,
}
use native.Mathlib.Nat.{zero-add}
use dsp_dispatch.Base.Cpp.{CppType, Numbers}
use dsp_dispatch.Fir.Types.{Status, Result, TapMemory, FirPlanConfig, of_value, invalid_common}
use dsp_dispatch.Fir.Response.{BlockOf, filtered, Tracks}
use dsp_dispatch.Fir.Plan.{FirPlan, fir_plan, create, clear}
use dsp_dispatch.Fir.Session.{
  plain, session, Carries, Answers, IsStreaming, IsStreaming-Answers, IsStreaming-clear,
}
use dsp_dispatch.Fir.Portable.{
  PortableState, history_len, history_len_of, portable_state, portable_execute, portable_clear,
  make_typed, make_backend_plan, sample_type, tap_type,
}
use dsp_dispatch.Fir.Portable.Channel.{IsCallable}
use dsp_dispatch.Fir.Portable.Stream.{execute-response}

-- The sizes of a configuration whose products and sums fit in `std::size_t`.
pub record IsSized (tap_count block_size batch : ℕ) : Type 0 where
  pub fits : tap_count + block_size < size_mod
  pub blocks : batch * block_size < size_mod
  pub histories : batch * history_len_of tap_count < size_mod

module _ {num : Numbers} {sample tap : CppType} (s₀ : PortableState num sample tap) where
  open num use {Value}

  -- The states that calls reach from `s₀`: only the two buffers change.
  abbrev with_buffers : Vector (Value sample) → Vector (Value sample) → PortableState num sample tap
  with_buffers h c = record s₀ { history = h; combined = c }

  pub record IsAt (x : ℕ → ℕ → Value sample) (s : PortableState num sample tap) (n : ℕ)
      : Type 0 where
    pub same : s ≡ with_buffers s.history s.combined
    pub held : Tracks num sample s₀.batch (history_len s₀) s.history.at x n

  module _ (input output : ℕ) (callable : IsCallable s₀ input output)
      (x : ℕ → ℕ → Value sample) where
    abbrev Step : PortableState num sample tap → ℕ → Memory (Value sample) → Type 0
    Step s n mem =
        let (st, s', mem') = portable_execute s input output mem in
        (st ≡ Status.ok)
        × BlockOf s₀.batch s₀.block_size (filtered num sample tap s₀.tap_count s₀.taps.at x) n
            (λ j. mem' (output + j))
        × IsAt x s' (n + s₀.block_size)

    execute-Step :
        (s : PortableState num sample tap) (n : ℕ) (mem : Memory (Value sample))
        → IsAt x s n
        → BlockOf s₀.batch s₀.block_size x n (λ j. mem (input + j))
        → Step s n mem
    unfolding portable_execute
    execute-Step s n mem at fed =
        subst (λ t. Step t n mem) (sym at.same)
          (let r =
              execute-response (with_buffers s.history s.combined) input output mem callable' x n
                fed at.held in
            (r.0, r.1, record { same = refl; held = r.2 }))
      where
        callable' : IsCallable (with_buffers s.history s.combined) input output
        callable' = record {
          fits = callable.fits;
          blocks = callable.blocks;
          histories = callable.histories;
          apart = callable.apart;
        }

  -- Delay lines full of zeros are those of a signal that has not begun.
  zeros-IsAt :
      (x : ℕ → ℕ → Value sample) (s : PortableState num sample tap)
      → s ≡ with_buffers s.history s.combined
      → s.history.at ≡ (λ _. num.zero sample)
      → IsAt x s 0
  zeros-IsAt x s same zeros = record {
    same = same;
    held = λ b j hb hj. rw (zeros, zero-add, leb_of_lt hj);
  }

  clear-ok : (s : PortableState num sample tap) → (portable_clear s).0 ≡ Status.ok
  unfolding portable_clear
  clear-ok s = refl

  pub clear-IsAt :
      (x y : ℕ → ℕ → Value sample) (s : PortableState num sample tap) (n : ℕ)
      → IsAt x s n
      → IsAt y (portable_clear s).1 0
  unfolding portable_clear
  clear-IsAt x y s n at = zeros-IsAt y _ (ap (λ t. (portable_clear t).1) at.same) refl

module _ {num : Numbers} (cfg : FirPlanConfig num) where
  abbrev pub sample_of : CppType
  sample_of = sample_type cfg.precision cfg.type

  abbrev pub tap_of : CppType
  tap_of = tap_type cfg.precision cfg.type

-- A configuration and its taps, as `make_backend_plan` sees them when it builds a plan.
module _ {num : Numbers} (granted : ℕ → ℕ) (cfg : FirPlanConfig num) (h : TapMemory num)
    (accepted : invalid_common num cfg ≡ false) (given : cfg.taps ≡ some h)
    (sized : IsSized cfg.tap_count cfg.block_size cfg.batch) where
  abbrev first : PortableState num (sample_of cfg) (tap_of cfg)
  first = portable_state num granted (sample_of cfg) (tap_of cfg) cfg h

  abbrev plan : FirPlan (Memory (num.Value (sample_of cfg)))
  plan = fir_plan (make_typed num granted (sample_of cfg) (tap_of cfg) cfg h)

  create-plan : create (make_backend_plan num granted cfg) ≡ of_value plan
  unfolding create make_backend_plan
  create-plan = simp (accepted, given)

  plan_of_create :
      (p : FirPlan (Memory (num.Value (sample_of cfg))))
      → create (make_backend_plan num granted cfg) ≡ of_value p
      → p ≡ plan
  plan_of_create p e = sym (
      some-injective _ _ (
        ap (λ (r : Result (FirPlan (Memory (num.Value (sample_of cfg))))). r.value)
          (sym create-plan ∙ e)))

  module _ (input output : ℕ)
      (apart : Disjoint input
        (cfg.batch * cfg.block_size)
        output
        (cfg.batch * cfg.block_size)) where
    first-IsCallable : IsCallable first input output
    unfolding portable_state
    first-IsCallable = record {
      fits = sized.fits;
      blocks = sized.blocks;
      histories = sized.histories;
      apart = apart;
    }

    plan-IsStreaming :
        IsStreaming plain plan cfg.batch cfg.block_size input output
          (filtered num (sample_of cfg) (tap_of cfg) cfg.tap_count (h (tap_of cfg)))
    unfolding make_typed portable_state
    plan-IsStreaming = record {
      Has = IsAt first;
      start = λ x. zeros-IsAt first x first refl refl;
      step = λ x s n mem. execute-Step first input output first-IsCallable x s n mem;
      restart = λ x x' s n at. (clear-ok first s, clear-IsAt first x x' s n at);
    }

    -- A valid configuration whose sizes fit in `size_t` gives a plan, and every session with that
    -- plan, over any number of blocks in buffers that do not overlap, is answered with success and
    -- with the response of the configured taps to the whole signal of each channel, across the
    -- borders of blocks.
    pub portable-Answers :
        (x : ℕ → ℕ → num.Value (sample_of cfg)) (us : List (ℕ → num.Value (sample_of cfg)))
        (mem : Memory (num.Value (sample_of cfg)))
        → Carries cfg.batch cfg.block_size x 0 us
        → (p : FirPlan (Memory (num.Value (sample_of cfg)))) × (create
              (make_backend_plan num granted cfg)
            ≡ of_value p)
          × Answers cfg.batch cfg.block_size
              (filtered num (sample_of cfg) (tap_of cfg) cfg.tap_count (h (tap_of cfg)) x)
              0
              us
              (session plain p input output (cfg.batch * cfg.block_size) us mem).0
    portable-Answers x us mem carried =
        (plan, create-plan, IsStreaming-Answers plan-IsStreaming x us mem carried)

    abbrev Restarts :
        (ℕ → ℕ → num.Value (sample_of cfg))
        → (us vs : List (ℕ → num.Value (sample_of cfg)))
        → (mem mem' : Memory (num.Value (sample_of cfg)))
        → FirPlan (Memory (num.Value (sample_of cfg)))
        → Type 0
    Restarts y us vs mem mem' p =
        let q = (session plain p input output (cfg.batch * cfg.block_size) us mem).1 in
        ((clear q).0 ≡ Status.ok)
        × Answers cfg.batch cfg.block_size
            (filtered num (sample_of cfg) (tap_of cfg) cfg.tap_count (h (tap_of cfg)) y) 0 vs
            (session plain (clear q).1 input output (cfg.batch * cfg.block_size) vs mem').0

    -- For a valid configuration whose sizes fit in `size_t`, and buffers that do not overlap:
    -- whatever a plan has processed, `clear` succeeds, and a session after it is answered as by a
    -- new plan, with the response to the signals that begin then.
    pub portable-clear-Answers :
        (x y : ℕ → ℕ → num.Value (sample_of cfg)) (us vs : List (ℕ → num.Value (sample_of cfg)))
        (mem mem' : Memory (num.Value (sample_of cfg)))
        → Carries cfg.batch cfg.block_size x 0 us
        → Carries cfg.batch cfg.block_size y 0 vs
        → (p : FirPlan (Memory (num.Value (sample_of cfg))))
        → create (make_backend_plan num granted cfg) ≡ of_value p
        → let q = (session plain p input output (cfg.batch * cfg.block_size) us mem).1 in
          ((clear q).0 ≡ Status.ok)
          × Answers cfg.batch cfg.block_size
              (filtered num (sample_of cfg) (tap_of cfg) cfg.tap_count (h (tap_of cfg)) y)
              0
              vs
              (session plain (clear q).1 input output (cfg.batch * cfg.block_size) vs mem').0
    portable-clear-Answers x y us vs mem mem' cx cy p e =
        subst (Restarts y us vs mem mem') (sym (plan_of_create p e))
          (IsStreaming-clear plan-IsStreaming x y us vs mem mem' cx cy)
