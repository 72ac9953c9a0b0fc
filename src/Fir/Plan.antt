-- ===== src/Fir/Plan.antt =====
-- src/common/fir_backend.h and src/common/fir.cpp: the dispatch record of a backend and the public
-- `FirPlan` that owns it. `void*` with its function pointers is a record that hides the type of the
-- state. A call runs on a machine `M`, the memory and what else it can change, and returns the state
-- and the machine that it left.
use mathlib.Core.Option
use dsp_dispatch.Base.{ℕ, Pointer, none, some, String, if◌then◌else◌}
use dsp_dispatch.Fir.Types.{Status, Result, of_status, succeeded}

pub record BackendPlan (M : Type 0) : Type 1 where
  pub State : Type 0
  pub state : State
  pub execute : State → ℕ → ℕ → M → Status × State × M
  pub clear : State → Status × State
  pub destroy : State → M → M
  pub workspace_bytes : ℕ
  pub name : String

pub record FirPlan (M : Type 0) : Type 1 where
  pub State : Type 0
  pub state : State
  pub run : State → ℕ → ℕ → M → Status × State × M
  pub reset : State → Status × State
  pub finish : State → M → M
  pub workspace_bytes : ℕ
  pub backend_name : String

module _ {M : Type 0} where
  -- `FirPlan::FirPlan`
  abbrev pub fir_plan : BackendPlan M → FirPlan M
  fir_plan bp = record {
    State = bp.State;
    state = bp.state;
    run = bp.execute;
    reset = bp.clear;
    finish = bp.destroy;
    workspace_bytes = bp.workspace_bytes;
    backend_name = bp.name;
  }

  -- `FirPlan::create`, after the call of `make_backend_plan`. `*value_` of an empty optional is
  -- undefined; here it stays empty.
  unfoldable pub create : Result (BackendPlan M) → Result (FirPlan M)
  create backend =
      if succeeded backend
      then record { status = Status.ok; value = Option.map fir_plan backend.value }
      else of_status backend.status

  -- `FirPlan::execute`
  unfoldable pub execute : FirPlan M → Pointer → Pointer → M → Status × FirPlan M × M
  execute p none _ mem = (Status.null_pointer, p, mem)
  execute p (some _) none mem = (Status.null_pointer, p, mem)
  execute p (some input) (some output) mem =
      let (st, s, mem') = p.run p.state input output mem in (st, record p { state = s }, mem')

  -- `FirPlan::clear`
  unfoldable pub clear : FirPlan M → Status × FirPlan M
  clear p = let (st, s) = p.reset p.state in (st, record p { state = s })

  -- `~FirPlan`, which calls the deleter of `state_`.
  unfoldable pub destroy : FirPlan M → M → M
  destroy p = p.finish p.state
