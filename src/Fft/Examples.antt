-- ===== src/Fft/Examples.antt =====
-- Stand-ins for the tests of the FFT modules: a library fftw3.h whose transforms fill the memory with
-- the length, and transforms that give every scalar of a row the first scalar of the row.
use native.Mathlib.Nat.{mul-add-div_right, div-eq_of_lt}
use dsp_dispatch.Base.{
  ℕ, ◌+◌, ◌-◌, ◌*◌, ◌/◌, ◌<◌, ◌≡◌, ap, ◌∙◌, arith, Memory, true, Option, some, none, ltb,
  if◌then◌else◌, List, [], ◌∷◌,
}
use dsp_dispatch.Fft.Fftw3.{Fftw, Live}

-- a plan is its length; lengths from 100 on have none
abbrev planned : List ℕ → Option ℕ
planned (n ∷ _) = if ltb n 100 then some n else none
planned [] = none

abbrev pub toy : Fftw
toy = record {
  Float = ℕ;
  one = 1;
  div = λ a b. 10 * a + b;
  mul = λ a b. a * b;
  of_size = λ n. n;
  Plan = ℕ;
  granted = λ call bytes. true;
  fftw_plan_many_dft = λ rank dims howmany istride di ostride do' backward. planned dims;
  fftw_plan_many_dft_r2c = λ rank dims howmany istride di ostride do'. planned dims;
  fftw_plan_many_dft_c2r = λ rank dims howmany istride di ostride do'. planned dims;
  fftw_execute_dft = λ q input output mem. λ _. q;
  fftw_execute_dft_r2c = λ q input output mem. λ _. q;
  fftw_execute_dft_c2r = λ q input output mem. λ _. q;
}

abbrev pub nothing : Live
nothing = record { blocks = 0; plans = 0 }

-- The rows of the output are `to` apart, and those of the input are `from` apart.
abbrev pub spread : (from to input output : ℕ) → Memory ℕ → Memory ℕ
spread from to input output mem a = mem (input + (a - output) / to * from)

pub spread_lem :
    (from to input output b j a c : ℕ) (mem : Memory ℕ)
    → j < to
    → a ≡ output + (b * to + j)
    → c ≡ input + b * from
    → spread from to input output mem a ≡ mem c
spread_lem from to input output b j a c mem hj at_a at_c =
    let row : (a - output) / to ≡ b =
      ap (λ n. n / to) (omega (arith, at_a))
      ∙ mul-add-div_right (omega (arith, hj)) b j
      ∙ rw (div-eq_of_lt hj) (omega arith) in
    rw (row, at_c)
