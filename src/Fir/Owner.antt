-- ===== src/Fir/Owner.antt =====
-- include/fir/fir.h: the members of `FirPlan` that own the state of a backend, and what they ensure in
-- any program. The state is at an address; the functions of a backend take it as `void*`.
mod Tests
use mathlib.Core.Option
use dsp_dispatch.Base.{
  ℕ, ◌≡◌, ◌≢◌, ◌⊎◌, refl, if◌then◌else◌, Bool, Pointer, none, some, String, [], ◌∷◌,
}
use dsp_dispatch.Fir.Types.{Status, Result, of_value, of_status, succeeded}
use dsp_dispatch.Owner.{
  DestroyFn, Owned, UniquePtr, World, released, delete, Movable, Program, owned, end_scope, Step,
  Reach,
}
use dsp_dispatch.Owner
use dsp_dispatch.Base.Lists.{get_elem?, set, count, length}
use dsp_dispatch.Owner.Alone.{IsStart, IsSound, Reach-IsSound}
use dsp_dispatch.Owner.Scope.{end_scope-Balanced}

module _ (M : Type 0) where
  abbrev pub ExecuteFn : Type 0
  ExecuteFn = Pointer → (input output : ℕ) → M → Status × M

  abbrev pub ClearFn : Type 0
  ClearFn = Pointer → M → Status × M

  pub record BackendPlan : Type 0 where
    pub state : Pointer
    pub execute : ExecuteFn
    pub clear : ClearFn
    pub destroy : DestroyFn M
    pub workspace_bytes : ℕ
    pub name : String

  pub record FirPlan : Type 0 where
    pub state : UniquePtr M
    pub run : ExecuteFn
    pub reset : ClearFn
    pub workspace_bytes : ℕ
    pub backend_name : String

module _ {M : Type 0} where
  -- `FirPlan::FirPlan`
  unfoldable pub fir_plan : BackendPlan M → FirPlan M
  fir_plan bp = record {
    state = record { pointer = bp.state; deleter = bp.destroy };
    run = bp.execute;
    reset = bp.clear;
    workspace_bytes = bp.workspace_bytes;
    backend_name = bp.name;
  }

  -- What `FirPlan(FirPlan&&)` and the assignment leave in their source; the new plan has its members.
  unfoldable pub moved_from : FirPlan M → FirPlan M
  moved_from p = record p { state = released p.state }

  -- `FirPlan::create`, after the call of `make_backend_plan`. The plan is constructed as the argument
  -- of `Result`, which moves it into its optional; then the argument is destroyed.
  unfoldable pub create : Result (BackendPlan M) → World M → Result (FirPlan M) × World M
  create backend w =
      if succeeded backend
      then elim backend.value [
        | none ↦ (record { status = Status.ok; value = none }, w)
        | some bp ↦ (of_value (fir_plan bp), delete (moved_from (fir_plan bp)).state w)
      ]
      else (of_status backend.status, w)

  -- `FirPlan::execute`
  unfoldable pub execute : FirPlan M → Pointer → Pointer → M → Status × M
  execute p none _ m = (Status.null_pointer, m)
  execute p (some _) none m = (Status.null_pointer, m)
  execute p (some input) (some output) m = p.run p.state.pointer input output m

  -- `FirPlan::clear`
  unfoldable pub clear : FirPlan M → M → Status × M
  clear p m = p.reset p.state.pointer m

  -- A call of a plan takes one machine to the other.
  abbrev pub Use : FirPlan M → M → M → Type 0
  Use p m m' =
      ((input output : Pointer) × (m' ≡ (execute p input output m).1)) ⊎ (m' ≡ (clear p m).1)

  abbrev pub fir_plans : Movable M (FirPlan M)
  unfolding moved_from
  fir_plans = record {
    state_of = λ p. p.state;
    moved_from = moved_from;
    state_of-moved_from = λ p. refl;
    Use = Use;
  }

  -- A creation that succeeds, put into a variable that has no plan, is a step of the program: the
  -- destruction of the argument calls no deleter.
  pub create-Step :
      (s : Program M (FirPlan M)) (i a : ℕ) (bp : BackendPlan M)
      → get_elem? s.plans i ≡ some none
      → bp.state ≡ some a
      → ((j : ℕ) (q : FirPlan M) → get_elem? s.plans j ≡ some (some q) → q.state.pointer ≢ some a)
      → let (r, w) = create (of_value bp) s.world in
        (r.status ≡ Status.ok)
        × Step fir_plans s (record s {
          plans = set s.plans i r.value;
          world = w;
          created = (a, bp.destroy) ∷ s.created;
        })
  unfolding create delete moved_from fir_plan
  create-Step s i a bp free at new = (refl, Owner.create i a (fir_plan bp) free at new)

  -- In every state that a program reaches from one without plans and states, by creating plans,
  -- moving them into new and old variables, destroying them and calling those that were not moved
  -- from: each state has been handed over, with its deleter, as often as it is with plans or its
  -- deleter has been called with it; the state of a plan has been handed over once more than
  -- destroyed; and two variables never have the same state.
  pub fir_plans-IsSound :
      {s t : Program M (FirPlan M)}
      → IsStart fir_plans s
      → Reach fir_plans s t
      → IsSound fir_plans t
  fir_plans-IsSound start r = Reach-IsSound fir_plans start r

  -- From every state that a program reaches so, the end of the scope of all its variables is a
  -- sequence of steps after which no plan has a state, and every state that was handed over has been
  -- destroyed as often, by its deleter.
  pub fir_plans-scope :
      {s t : Program M (FirPlan M)}
      → IsStart fir_plans s
      → Reach fir_plans s t
      → let end = end_scope fir_plans (length t.plans) t in
        Reach fir_plans s end
        × (owned fir_plans end.plans ≡ [])
        × ((test : Owned M → Bool) → count test t.created ≡ count test end.world.destroyed)
  fir_plans-scope start r = end_scope-Balanced fir_plans start r
