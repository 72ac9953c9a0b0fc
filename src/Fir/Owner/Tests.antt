-- ===== src/Fir/Owner/Tests.antt =====
-- The theorems at a program with two variables, which creates a plan, moves it into the other variable,
-- calls it there, and leaves the scope.
use dsp_dispatch.Base.{ℕ, zero, suc, ◌+◌, ◌≡◌, ◌≢◌, refl, Bool, none, some, [], ◌∷◌, inl}
use dsp_dispatch.Fir.Types.{Status}
use dsp_dispatch.Owner.{Owned, Program, Reach, owned, end_scope, move_construct}
use dsp_dispatch.Owner.{here, next, create, construct, call}
use dsp_dispatch.Base.Lists.{get_elem?, count}
use dsp_dispatch.Owner.Alone.{IsStart, IsSound}
use dsp_dispatch.Fir.Owner.{
  BackendPlan, FirPlan, fir_plan, moved_from, execute, fir_plans, fir_plans-IsSound,
  fir_plans-scope,
}

-- A machine that counts; the state is at address 100.
abbrev counting : BackendPlan ℕ
counting = record {
  state = some 100;
  execute = λ state input output m. (Status.ok, suc m);
  clear = λ state m. (Status.ok, m);
  destroy = λ a m. m + a;
  workspace_bytes = 16;
  name = "counting";
}

abbrev start : Program ℕ (FirPlan ℕ)
start = record {
  plans = none ∷ none ∷ [];
  world = record { machine = 0; destroyed = [] };
  created = [];
}

abbrev created : Program ℕ (FirPlan ℕ)
created = record start {
  plans = some (fir_plan counting) ∷ none ∷ [];
  created = (100, counting.destroy) ∷ [];
}

abbrev moved : Program ℕ (FirPlan ℕ)
moved = move_construct fir_plans 1 0 (fir_plan counting) created

abbrev called : Program ℕ (FirPlan ℕ)
called = record moved { world = record moved.world { machine = 1 } }

no_plans :
    (j : ℕ) (q : FirPlan ℕ) → get_elem? start.plans j ≡ some (some q) → q.state.pointer ≢ some 100
no_plans zero q e = cc
no_plans (suc zero) q e = cc
no_plans (suc (suc j)) q e = cc

start-IsStart : IsStart fir_plans start
unfolding owned
start-IsStart = record { no_plans = refl; no_states = refl; no_calls = refl }

reached : Reach fir_plans start called
unfolding fir_plan execute moved_from
reached =
    next
      (next (next here (create 0 100 (fir_plan counting) refl refl no_plans))
        (construct 1 0 (fir_plan counting) refl refl))
      (call 1 100 (fir_plan counting) 1 refl refl (inl (some 4, some 8, refl)))

fir_plans-IsSound_example : IsSound fir_plans called
fir_plans-IsSound_example = fir_plans-IsSound start-IsStart reached

fir_plans-scope_example :
    let end = end_scope fir_plans 2 called in
    Reach fir_plans start end
    × (owned fir_plans end.plans ≡ [])
    × ((test : Owned ℕ → Bool) → count test called.created ≡ count test end.world.destroyed)
unfolding moved_from
fir_plans-scope_example = fir_plans-scope start-IsStart reached
