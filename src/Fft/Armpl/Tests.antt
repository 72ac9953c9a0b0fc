-- ===== src/Fft/Armpl/Tests.antt =====
-- The theorems on ArmPL plans at concrete configurations, over stand-ins for the library.
use mathlib.Core.Option.{some-injective}
use dsp_dispatch.Base.{
  ℕ, ◌+◌, ◌*◌, ◌<◌, ◌≡◌, refl, ap, arith, true, Option, none, some, Memory, List, [], ◌∷◌,
}
use dsp_dispatch.Fft.Types.{Status, FftType, FftPrecision, FftDirection, FftPlanConfig, of_value}
use dsp_dispatch.Fft.Layout.{Serves}
use dsp_dispatch.Fft.Plan.{FftPlan, create, execute}
use dsp_dispatch.Fft.Armpl.{make_backend_plan, make_plan, plan_many_dft_c2r}
use dsp_dispatch.Fft.Examples.{toy, nothing, spread, spread_lem}
use dsp_dispatch.Fft.Fftw3.{Fftw, Machine, IsDocumented, Spectrum, normalized}
use dsp_dispatch.Fft.Armpl.Create.{live_after, armpl-create_live, armpl-destroy_live, armpl-Serves}

-- What a plan of this library knows: the length, and the scalars from a row to the next.
record Strides : Type 0 where
  n : ℕ
  from : ℕ
  to : ℕ

abbrev strides : (from_unit to_unit : ℕ) → List ℕ → (di do' : ℕ) → Option Strides
strides from_unit to_unit [] di do' = none
strides from_unit to_unit (n ∷ _) di do' =
    some (record { n = n; from = di * from_unit; to = do' * to_unit })

-- the length plus the first scalar of the row
abbrev run : Strides → (input output : ℕ) → Memory ℕ → Memory ℕ
run q input output mem a = q.n + spread q.from q.to input output mem a

abbrev spreading : Fftw
spreading = record toy {
  Plan = Strides;
  fftw_plan_many_dft = λ rank dims howmany istride di ostride do' backward. strides 2 2 dims di do';
  fftw_plan_many_dft_r2c = λ rank dims howmany istride di ostride do'. strides 1 2 dims di do';
  fftw_plan_many_dft_c2r = λ rank dims howmany istride di ostride do'. strides 2 1 dims di do';
  fftw_execute_dft = run;
  fftw_execute_dft_r2c = run;
  fftw_execute_dft_c2r = run;
}

abbrev added : Spectrum spreading
added t inverse n row j = n + row 0

run_lem :
    (n from to b j a c input output : ℕ) (q : Strides) (mem : Memory ℕ)
    → some (record { n = n; from = from; to = to }) ≡ some q
    → j < to
    → a ≡ output + (b * to + j)
    → c ≡ input + b * from
    → run q input output mem a ≡ n + mem c
run_lem n from to b j a c input output q mem made hj at_a at_c =
    rw (← some-injective _ _ made)
      (ap (λ v. n + v) (spread_lem from to input output b j a c mem hj at_a at_c))

spreading-IsDocumented : IsDocumented spreading added
spreading-IsDocumented FftType.complex n howmany di do' inverse q input output mem made hn ln hb lb
      li lo parts tile apart b j hb' hj =
    run_lem n _ _ b j _ _ input output q mem made (omega (arith, hj, tile)) (omega arith)
      (omega arith)
spreading-IsDocumented FftType.real_to_complex n howmany di do' inverse q input output mem made hn
      ln hb lb li lo parts tile apart b j hb' hj =
    run_lem n _ _ b j _ _ input output q mem made (omega (arith, hj, tile)) (omega arith)
      (omega arith)
spreading-IsDocumented FftType.complex_to_real n howmany di do' inverse q input output mem made hn
      ln hb lb li lo parts tile apart b j hb' hj =
    run_lem n _ _ b j _ _ input output q mem made (omega (arith, hj, tile)) (omega arith)
      (omega arith)

-- two inverse transforms of three bins into four reals
abbrev config : FftPlanConfig
config = record {
  type = FftType.complex_to_real;
  precision = FftPrecision.f32;
  length = 4;
  batch = 2;
  direction = FftDirection.forward;
}

armpl-Serves_example :
    (p : FftPlan (Machine ℕ)) × (create (make_backend_plan (λ _. spreading) config nothing).0
      ≡ of_value p)
    × (let (status, p', m') =
          execute p (some 0) (some 12) (record { memory = λ a. a; live = nothing }) in
        (status ≡ Status.ok)
        × (p' ≡ p)
        × Serves 1 2 6 4
            (normalized spreading added FftType.complex_to_real true 4)
            0
            12
            (λ a. a)
            m'.memory)
unfolding make_plan plan_many_dft_c2r
armpl-Serves_example =
    armpl-Serves (λ _. spreading) config added spreading-IsDocumented
      (record { n = 4; from = 6; to = 4 }) nothing 0 12 (λ a. a) refl refl refl refl (omega arith)
      (omega arith) (omega arith) (omega arith) (omega arith) (omega arith)

armpl-create_live_example :
    let (backend, l') = make_backend_plan (λ _. toy) (record config { length = 128 }) nothing in
    ((create backend).status ≡ Status.backend_error) × (l'.blocks ≡ 0) × (l'.plans ≡ 0)
unfolding make_plan plan_many_dft_c2r
armpl-create_live_example = armpl-create_live (λ _. toy) (record config { length = 128 }) nothing

armpl-destroy_live_example : live_after (λ _. toy) config (λ a. a) nothing ≡ nothing
armpl-destroy_live_example = armpl-destroy_live (λ _. toy) config (λ a. a) nothing
