-- ===== src/Fft/Kfr/Tests.antt =====
-- The theorem on KFR plans at a concrete configuration, over a stand-in for the library whose
-- transforms are copies, and whose buffer counts the runs.
use dsp_dispatch.Base.{ℕ, suc, ◌+◌, ◌*◌, ◌≡◌, refl, arith, true, [], ◌∷◌}
use dsp_dispatch.Base.{Memory}
use dsp_dispatch.Fft.Types.{FftType, FftPrecision, FftDirection, FftPlanConfig, of_value}
use dsp_dispatch.Fft.Layout.{Serves}
use dsp_dispatch.Fft.Plan.{FftPlan, create}
use dsp_dispatch.Fft.Calls.{calls, AllServed}
use dsp_dispatch.Fft.Kfr.{KfrLibrary, make_backend_plan}
use dsp_dispatch.Fft.Kfr.Execute.{normalized}
use dsp_dispatch.Fft.Kfr.Plan.{kfr-Serves}

abbrev toy : KfrLibrary
toy = record {
  Float = ℕ;
  one = 1;
  div = λ a b. 10 * a + b;
  mul = λ a b. a * b;
  of_size = λ n. n;
  Plan = ℕ;
  Temp = ℕ;
  dft_plan = λ n. n;
  temp_size = λ n. n;
  temp = λ bytes. 0;
  execute = λ q row temp inverse. (row, suc temp);
}

-- two inverse transforms of four complex values
abbrev config : FftPlanConfig
config = record {
  type = FftType.complex;
  precision = FftPrecision.f32;
  length = 4;
  batch = 2;
  direction = FftDirection.inverse;
}

kfr-Serves_example :
    (p : FftPlan (Memory ℕ)) × (create (make_backend_plan (λ _. toy) config) ≡ of_value p)
    × AllServed
        (λ mem mem'. Serves 1 2 8 8 (normalized toy (λ inverse n row. row) true 4) 0 16 mem mem')
        ((λ a. a) ∷ (λ a. 7) ∷ [])
        (calls p 0 16 ((λ a. a) ∷ (λ a. 7) ∷ []))
kfr-Serves_example =
    kfr-Serves (λ _. toy) config refl (λ inverse n row. row)
      (λ n inverse source row temp reads j hj. reads j hj) 0 16 ((λ a. a) ∷ (λ a. 7) ∷ [])
      (omega arith) (omega arith) (omega arith) (omega arith)
