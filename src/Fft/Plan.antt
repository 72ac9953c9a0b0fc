-- ===== src/Fft/Plan.antt =====
-- src/common/backend.h and src/common/fft.cpp: the dispatch record of a backend and the public
-- `FftPlan` that owns it. `void*` with its function pointers is a record that hides the type of the
-- state. A call runs on a machine `M`, the memory and what else it can change, and returns the state
-- and the machine that it left.
use mathlib.Core.Option
use dsp_dispatch.Base.{ℕ, Pointer, none, some, String, if◌then◌else◌}
use dsp_dispatch.Fft.Types.{Status, Result, of_status, succeeded}

pub record BackendPlan (M : Type 0) : Type 1 where
  pub State : Type 0
  pub state : State
  pub execute : State → ℕ → ℕ → M → Status × State × M
  pub destroy : State → M → M
  pub workspace_bytes : ℕ
  pub name : String

pub record FftPlan (M : Type 0) : Type 1 where
  pub State : Type 0
  pub state : State
  pub run : State → ℕ → ℕ → M → Status × State × M
  pub finish : State → M → M
  pub workspace_bytes : ℕ
  pub backend_name : String

module _ {M : Type 0} where
  -- `FftPlan::FftPlan`
  abbrev pub fft_plan : BackendPlan M → FftPlan M
  fft_plan bp = record {
    State = bp.State;
    state = bp.state;
    run = bp.execute;
    finish = bp.destroy;
    workspace_bytes = bp.workspace_bytes;
    backend_name = bp.name;
  }

  -- `FftPlan::create`, after the call of `make_backend_plan`. `*value_` of an empty optional is
  -- undefined; here it stays empty.
  unfoldable pub create : Result (BackendPlan M) → Result (FftPlan M)
  create backend =
      if succeeded backend
      then record { status = Status.ok; value = Option.map fft_plan backend.value }
      else of_status backend.status

  -- `FftPlan::execute`
  unfoldable pub execute : FftPlan M → Pointer → Pointer → M → Status × FftPlan M × M
  execute p none _ m = (Status.null_pointer, p, m)
  execute p (some _) none m = (Status.null_pointer, p, m)
  execute p (some input) (some output) m =
      let (st, s, m') = p.run p.state input output m in (st, record p { state = s }, m')

  -- `~FftPlan`, which calls the deleter of `state_`.
  unfoldable pub destroy : FftPlan M → M → M
  destroy p = p.finish p.state
