-- ===== src/Fft/Owner/Tests.antt =====
-- The theorems at a program with two variables: it creates a plan, moves it into the other variable,
-- calls it there, and leaves the scope.
use dsp_dispatch.Base.{ℕ, zero, suc, ◌+◌, ◌≡◌, ◌≢◌, refl, none, some, [], ◌∷◌}
use dsp_dispatch.Fft.Types.{Status}
use dsp_dispatch.Owner.{Program, Reach, owned, move_construct}
use dsp_dispatch.Owner.{here, next, create, construct, call}
use dsp_dispatch.Base.Lists.{get_elem?}
use dsp_dispatch.Owner.Alone.{IsStart, IsSound}
use dsp_dispatch.Fft.Owner.{
  BackendPlan, FftPlan, fft_plan, moved_from, execute, fft_plans, fft_plans-IsSound,
}

-- A machine that counts; the state is at address 100.
abbrev counting : BackendPlan ℕ
counting = record {
  state = some 100;
  execute = λ state input output m. (Status.ok, suc m);
  destroy = λ a m. m + a;
  workspace_bytes = 16;
  name = "counting";
}

abbrev start : Program ℕ (FftPlan ℕ)
start = record {
  plans = none ∷ none ∷ [];
  world = record { machine = 0; destroyed = [] };
  created = [];
}

abbrev created : Program ℕ (FftPlan ℕ)
created = record start {
  plans = some (fft_plan counting) ∷ none ∷ [];
  created = (100, counting.destroy) ∷ [];
}

abbrev moved : Program ℕ (FftPlan ℕ)
moved = move_construct fft_plans 1 0 (fft_plan counting) created

abbrev called : Program ℕ (FftPlan ℕ)
called = record moved { world = record moved.world { machine = 1 } }

no_plans :
    (j : ℕ) (q : FftPlan ℕ) → get_elem? start.plans j ≡ some (some q) → q.state.pointer ≢ some 100
no_plans zero q e = cc
no_plans (suc zero) q e = cc
no_plans (suc (suc j)) q e = cc

start-IsStart : IsStart fft_plans start
unfolding owned
start-IsStart = record { no_plans = refl; no_states = refl; no_calls = refl }

reached : Reach fft_plans start called
unfolding fft_plan execute moved_from
reached =
    next
      (next (next here (create 0 100 (fft_plan counting) refl refl no_plans))
        (construct 1 0 (fft_plan counting) refl refl))
      (call 1 100 (fft_plan counting) 1 refl refl (some 4, some 8, refl))

fft_plans-IsSound_example : IsSound fft_plans called
fft_plans-IsSound_example = fft_plans-IsSound start-IsStart reached
