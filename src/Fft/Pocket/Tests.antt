-- ===== src/Fft/Pocket/Tests.antt =====
-- The theorems on PocketFFT plans at concrete configurations, over a stand-in for the library that
-- gives every scalar of a row the factor plus the first scalar of the row.
use dsp_dispatch.Base.{
  ℕ, ◌+◌, ◌*◌, ◌/◌, ◌<◌, ◌≤◌, ◌≡◌, refl, ap, arith, Bool, true, some, inr, Memory, List, ◌∷◌, [],
  mul_size, row-le, ◌%◌, ◌⊎◌, inl, Bool-cases, ◌==◌,
}
use dsp_dispatch.Fft.Types.{Status, FftType, FftPrecision, FftDirection, FftPlanConfig, of_value}
use dsp_dispatch.Fft.Layout.{Serves, Side, reals, complexes, unit, real_size}
use dsp_dispatch.Fft.Pocket.Stride.{IsTiled, scalar_at}
use dsp_dispatch.Fft.Plan.{FftPlan, create, execute}
use dsp_dispatch.Fft.Pocket.{Pocket, make_backend_plan, factor, pocket_state, stride_in_of}
use dsp_dispatch.Fft.Examples.{spread, spread_lem}
use dsp_dispatch.Fft.Pocket.Run.{IsDocumented, Spectrum}
use dsp_dispatch.Fft.Pocket.Create.{pocket-Serves}

abbrev outer_of : List ℕ → ℕ
outer_of (outer ∷ _) = outer
outer_of [] = 0

-- the factor and the first scalar of the row that the address is in
abbrev adding : (si so : List ℕ) (input output fct : ℕ) (mem : Memory ℕ) → Bool × Memory ℕ
adding si so input output fct mem =
    (true, λ a. fct + spread (outer_of si) (outer_of so) input output mem a)

abbrev toy : Pocket
toy = record {
  Float = λ p. ℕ;
  zero = λ p. 0;
  one = λ p. 1;
  div = λ p a b. 10 * a + b;
  of_size = λ p n. n;
  c2c = λ p shape si so axes forward input output fct mem. adding si so input output fct mem;
  r2c = λ p shape si so axis forward input output fct mem. adding si so input output fct mem;
  c2r = λ p shape si so axis forward input output fct mem. adding si so input output fct mem;
}

abbrev added : (p : FftPrecision) → Spectrum toy p
added p t forward n fct row j = fct + row 0

parity : (j : ℕ) → (j % 2 ≡ 0) ⊎ (j % 2 ≡ 1)
parity j = elim (Bool-cases (j % 2 == 0)) [
  | inl even ↦ inl (ground (arith, even))
  | inr odd ↦ inr (ground (arith, odd))
]

-- A scalar of a complex value is in its row.
half_lt :
    (inner outer w j : ℕ)
    → 2 ≤ inner
    → w * inner ≤ outer * 2
    → j < w
    → j / 2 * inner + j % 2 < outer
half_lt inner outer w j pair rows hj = elim (parity j) [
  | inl even ↦
      let whole : j * inner ≡ 2 * (j / 2) * inner = ap (λ k. k * inner) (omega (arith, even)) in
      rw even (omega (arith, whole, row-le inner hj))
  | inr odd ↦
      let whole : j * inner ≡ (2 * (j / 2) + 1) * inner =
        ap (λ k. k * inner) (omega (arith, odd)) in
      rw odd (omega (arith, whole, row-le inner hj))
]

-- The offset of a scalar in its row is less than the stride of the rows.
offset_lt :
    (p : FftPrecision) (side : Side) (w j outer inner : ℕ)
    → unit side ≤ inner
    → w * inner ≤ outer * unit side
    → j < w
    → scalar_at p side (outer * real_size p ∷ inner * real_size p ∷ []) 0 0 j < outer * real_size p
offset_lt FftPrecision.f32 reals w j outer inner least rows hj = omega (arith, row-le inner hj)
offset_lt FftPrecision.f64 reals w j outer inner least rows hj = omega (arith, row-le inner hj)
offset_lt FftPrecision.f32 complexes w j outer inner least rows hj =
    omega (arith, half_lt inner outer w j least rows hj)
offset_lt FftPrecision.f64 complexes w j outer inner least rows hj =
    omega (arith, half_lt inner outer w j least rows hj)

-- The rows are a stride apart.
at_row :
    (p : FftPrecision) (side : Side) (o i q b j : ℕ)
    → scalar_at p side (o ∷ i ∷ []) q b j ≡ q + (b * o + scalar_at p side (o ∷ i ∷ []) 0 0 j)
at_row p reals o i q b j = omega arith
at_row p complexes o i q b j = omega arith

-- The first scalar of a row is where the row starts.
first_of :
    (p : FftPrecision) (side : Side) (w batch q b : ℕ) (s : List ℕ)
    → IsTiled p side w batch s
    → scalar_at p side s q b 0 ≡ q + b * outer_of s
first_of p reals w batch q b s tiled = rw tiled.same (omega arith)
first_of p complexes w batch q b s tiled = rw tiled.same (omega arith)

adding_lem :
    (p : FftPrecision) (side side' : Side) (w w' batch input output fct b j : ℕ) (si so : List ℕ)
    (mem : Memory ℕ)
    → IsTiled p side w batch si
    → IsTiled p side' w' batch so
    → j < w'
    → (adding si so input output fct mem).1 (scalar_at p side' so output b j)
      ≡ fct + mem (scalar_at p side si input b 0)
adding_lem p side side' w w' batch input output fct b j si so mem tiled tiled' hj =
    let o = tiled'.outer * real_size p in
    let i = tiled'.inner * real_size p in
    let lt = offset_lt p side' w' j tiled'.outer tiled'.inner tiled'.elements tiled'.rows hj in
    let first = first_of p side w batch input b si tiled in
    rw tiled'.same (
      ap (λ v. fct + v)
        (spread_lem (outer_of si) o input output b (scalar_at p side' (o ∷ i ∷ []) 0 0 j) _ _ mem lt
          (at_row p side' o i output b j) first))

toy-IsDocumented : (p : FftPrecision) (t : FftType) (n : ℕ) → IsDocumented toy p (added p) t n
toy-IsDocumented p FftType.complex n batch si so forward input output fct mem hb hn ti to place =
    (refl, λ b j hb hj. adding_lem p _ _ _ _ batch input output fct b j si so mem ti to hj)
toy-IsDocumented p FftType.real_to_complex n batch si so forward input output fct mem hb hn ti to
      place =
    (refl, λ b j hb hj. adding_lem p _ _ _ _ batch input output fct b j si so mem ti to hj)
toy-IsDocumented p FftType.complex_to_real n batch si so forward input output fct mem hb hn ti to
      place =
    (refl, λ b j hb hj. adding_lem p _ _ _ _ batch input output fct b j si so mem ti to hj)

-- two inverse transforms of four complex values
abbrev config : FftPlanConfig
config = record {
  type = FftType.complex;
  precision = FftPrecision.f64;
  length = 4;
  batch = 2;
  direction = FftDirection.inverse;
}

complex_strides : stride_in_of FftPrecision.f64 FftType.complex 4 ≡ 64 ∷ 16 ∷ []
unfolding stride_in_of mul_size
complex_strides = refl

pocket-Serves_example :
    (p : FftPlan (Memory ℕ)) × (create (make_backend_plan toy config) ≡ of_value p)
    × (let (status, p', mem') = execute p (some 0) (some 0) (λ a. a) in
        (status ≡ Status.ok)
        × (p' ≡ p)
        × Serves 8 2 8 8
            (λ row j.
              factor toy FftPrecision.f64 (pocket_state FftPrecision.f64 config true) + row 0)
            0
            0
            (λ a. a)
            mem')
pocket-Serves_example =
    pocket-Serves toy config (added FftPrecision.f64)
      (toy-IsDocumented FftPrecision.f64 FftType.complex 4) refl (omega arith) (omega arith)
      (omega arith) (omega arith) 0 0 (λ a. a) (inr (refl, refl))
