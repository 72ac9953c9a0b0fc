-- ===== src/Fft/Owner.antt =====
-- include/fft/fft.h: the members of `FftPlan` that own the state of a backend, and what they ensure in
-- any program. The state is at an address; the functions of a backend take it as `void*`.
mod Tests
use mathlib.Core.Option
use dsp_dispatch.Base.{ℕ, ◌≡◌, ◌≢◌, refl, if◌then◌else◌, Bool, Pointer, none, some, String, [], ◌∷◌}
use dsp_dispatch.Fft.Types.{Status, Result, of_value, of_status, succeeded}
use dsp_dispatch.Owner.{
  DestroyFn, Owned, UniquePtr, World, released, delete, Movable, Program, owned, end_scope, Step,
  Reach,
}
use dsp_dispatch.Owner
use dsp_dispatch.Base.Lists.{get_elem?, set, count, length}
use dsp_dispatch.Owner.Alone.{IsStart, IsSound, Reach-IsSound}
use dsp_dispatch.Owner.Scope.{end_scope-Balanced}

module _ (M : Type 0) where
  abbrev pub ExecuteFn : Type 0
  ExecuteFn = Pointer → (input output : ℕ) → M → Status × M

  pub record BackendPlan : Type 0 where
    pub state : Pointer
    pub execute : ExecuteFn
    pub destroy : DestroyFn M
    pub workspace_bytes : ℕ
    pub name : String

  pub record FftPlan : Type 0 where
    pub state : UniquePtr M
    pub run : ExecuteFn
    pub workspace_bytes : ℕ
    pub backend_name : String

module _ {M : Type 0} where
  -- `FftPlan::FftPlan`
  unfoldable pub fft_plan : BackendPlan M → FftPlan M
  fft_plan bp = record {
    state = record { pointer = bp.state; deleter = bp.destroy };
    run = bp.execute;
    workspace_bytes = bp.workspace_bytes;
    backend_name = bp.name;
  }

  -- What `FftPlan(FftPlan&&)` and the assignment leave in their source; the new plan has its members.
  unfoldable pub moved_from : FftPlan M → FftPlan M
  moved_from p = record p { state = released p.state }

  -- `FftPlan::create`, after the call of `make_backend_plan`. The plan is constructed as the argument
  -- of `Result`, which moves it into its optional; then the argument is destroyed.
  unfoldable pub create : Result (BackendPlan M) → World M → Result (FftPlan M) × World M
  create backend w =
      if succeeded backend
      then elim backend.value [
        | none ↦ (record { status = Status.ok; value = none }, w)
        | some bp ↦ (of_value (fft_plan bp), delete (moved_from (fft_plan bp)).state w)
      ]
      else (of_status backend.status, w)

  -- `FftPlan::execute`
  unfoldable pub execute : FftPlan M → Pointer → Pointer → M → Status × M
  execute p none _ m = (Status.null_pointer, m)
  execute p (some _) none m = (Status.null_pointer, m)
  execute p (some input) (some output) m = p.run p.state.pointer input output m

  -- A call of a plan takes one machine to the other.
  abbrev pub Use : FftPlan M → M → M → Type 0
  Use p m m' = ((input output : Pointer) × (m' ≡ (execute p input output m).1))

  abbrev pub fft_plans : Movable M (FftPlan M)
  unfolding moved_from
  fft_plans = record {
    state_of = λ p. p.state;
    moved_from = moved_from;
    state_of-moved_from = λ p. refl;
    Use = Use;
  }

  -- A creation that succeeds, put into a variable that has no plan, is a step of the program: the
  -- destruction of the argument calls no deleter.
  pub create-Step :
      (s : Program M (FftPlan M)) (i a : ℕ) (bp : BackendPlan M)
      → get_elem? s.plans i ≡ some none
      → bp.state ≡ some a
      → ((j : ℕ) (q : FftPlan M) → get_elem? s.plans j ≡ some (some q) → q.state.pointer ≢ some a)
      → let (r, w) = create (of_value bp) s.world in
        (r.status ≡ Status.ok)
        × Step fft_plans s (record s {
          plans = set s.plans i r.value;
          world = w;
          created = (a, bp.destroy) ∷ s.created;
        })
  unfolding create delete moved_from fft_plan
  create-Step s i a bp free at new = (refl, Owner.create i a (fft_plan bp) free at new)

  -- In every state that a program reaches from one without plans and states, by creating plans,
  -- moving them into new and old variables, destroying them and calling those that were not moved
  -- from: each state has been handed over, with its deleter, as often as it is with plans or its
  -- deleter has been called with it; the state of a plan has been handed over once more than
  -- destroyed; and two variables never have the same state.
  pub fft_plans-IsSound :
      {s t : Program M (FftPlan M)}
      → IsStart fft_plans s
      → Reach fft_plans s t
      → IsSound fft_plans t
  fft_plans-IsSound start r = Reach-IsSound fft_plans start r

  -- From every state that a program reaches so, the end of the scope of all its variables is a
  -- sequence of steps after which no plan has a state, and every state that was handed over has been
  -- destroyed as often, by its deleter.
  pub fft_plans-scope :
      {s t : Program M (FftPlan M)}
      → IsStart fft_plans s
      → Reach fft_plans s t
      → let end = end_scope fft_plans (length t.plans) t in
        Reach fft_plans s end
        × (owned fft_plans end.plans ≡ [])
        × ((test : Owned M → Bool) → count test t.created ≡ count test end.world.destroyed)
  fft_plans-scope start r = end_scope-Balanced fft_plans start r
