-- ===== src/Fft/Aocl/Tests.antt =====
-- The length test and the creation of plans at concrete inputs.
use mathlib.Core.Option.{some-injective}
use dsp_dispatch.Base.{ℕ, ◌≡◌, ◌+◌, ◌*◌, ◌&&◌, not, ◌↔◌, refl, ap, arith, Bool, true, false, some}
use dsp_dispatch.Fft.Types.{
  Status, FftType, FftPrecision, FftDirection, FftPlanConfig, Result, of_value,
}
use dsp_dispatch.Fft.Layout.{Serves, unit, in_side, out_side}
use dsp_dispatch.Fft.Direction.{inverts}
use dsp_dispatch.Fft.Examples.{spread, spread_lem}
use dsp_dispatch.Fft.Aocl.{Fftz, Desc, describe, make_backend_plan}
use dsp_dispatch.Fft.Aocl.Execute.{Spectrum, IsDocumented, normalized, problem}
use dsp_dispatch.Fft.Aocl.Plan.{aocl-Serves}
use dsp_dispatch.Fft.Plan.{BackendPlan, FftPlan, create, execute}
use dsp_dispatch.Base.Machine.{Machine}
use dsp_dispatch.Fft.Aocl.Length.{
  aocl_real_length_supported, IsSmooth, one, times, Factor, supported_iff, strip, strip_all,
}
use dsp_dispatch.Fft.Aocl.Create.{Ends, aocl-create_status}

supported_iff_example :
    (r : Bool) × (aocl_real_length_supported 12 ≡ some r) × ((r ≡ true) ↔ IsSmooth 12)
supported_iff_example = supported_iff 12 (omega arith)

eleven_fails : aocl_real_length_supported 22 ≡ some false
unfolding aocl_real_length_supported strip_all strip
eleven_fails = refl

-- A stand-in for the library, whose transforms fill the memory with the length.
abbrev toy : Fftz
toy = record {
  Float = ℕ;
  one = 1;
  div = λ a b. 10 * a + b;
  mul = λ a b. a * b;
  of_size = λ n. n;
  Handle = ℕ;
  setup = λ d. some d.dims.n;
  execute_io = λ h input output mem. (true, λ _. h);
}

-- transforms of 22 reals
abbrev config : FftPlanConfig
config = record {
  type = FftType.real_to_complex;
  precision = FftPrecision.f32;
  length = 22;
  batch = 3;
  direction = FftDirection.forward;
}

aocl-create_status_example :
    (smooth : Bool) × ((smooth ≡ true) ↔ IsSmooth 22)
    × Ends (λ _. toy) config 5 smooth (make_backend_plan (λ _. toy) config 5)
aocl-create_status_example = aocl-create_status (λ _. toy) config 5

-- What a handle of another one knows: the length, and the scalars from a row to the next.
record Strides : Type 0 where
  n : ℕ
  from : ℕ
  to : ℕ

-- the scalars of an element, where a real one has one
abbrev unit_of : (single : Bool) → ℕ
unit_of true = 1
unit_of false = 2

abbrev strides : Desc → Strides
strides d = record {
  n = d.dims.n;
  from = d.vecs.in_stride * unit_of (d.real && not d.inverse);
  to = d.vecs.out_stride * unit_of (d.real && d.inverse);
}

-- Its transforms give the length plus the first scalar of the row.
abbrev spreading : Fftz
spreading = record toy {
  Handle = Strides;
  setup = λ d. some (strides d);
  execute_io = λ h input output mem. (true, λ a. h.n + spread h.from h.to input output mem a);
}

abbrev added : Spectrum spreading
added t inverse n row j = n + row 0

strides_lem :
    (t : FftType) (d : FftDirection) (n howmany di do' : ℕ)
    → let h = strides (problem spreading t (inverts t d) n howmany di do') in
      (h.from ≡ di * unit (in_side t)) × (h.to ≡ do' * unit (out_side t))
strides_lem FftType.complex d n howmany di do' = (refl, refl)
strides_lem FftType.real_to_complex d n howmany di do' = (refl, refl)
strides_lem FftType.complex_to_real d n howmany di do' = (refl, refl)

spreading-IsDocumented : IsDocumented spreading added
spreading-IsDocumented t d n howmany di do' h input output mem made hn ln hb lb li lo parts tile
      apart =
    let (from, to) = strides_lem t d n howmany di do' in
    rw (← some-injective _ _ made) (
      refl,
      λ b j hb' hj.
          ap (λ v. n + v)
            (spread_lem _ _ input output b j _ _ mem (omega (arith, hj, tile, to))
              (rw to (omega arith)) (rw from (omega arith))),
    )

-- two inverse transforms of three bins into four reals
abbrev inverse_config : FftPlanConfig
inverse_config = record {
  type = FftType.complex_to_real;
  precision = FftPrecision.f32;
  length = 4;
  batch = 2;
  direction = FftDirection.forward;
}

four-IsSmooth : IsSmooth 4
four-IsSmooth = times Factor.two {n = 2} 4 (times Factor.two {n = 1} 2 one refl) refl

aocl-Serves_example :
    (r : Result (BackendPlan (Machine ℕ))) × (p : FftPlan (Machine ℕ)) × (make_backend_plan
        (λ _. spreading)
        inverse_config
        5
      ≡ some (r, 6))
    × (create r ≡ of_value p)
    × (let (status, p', m') = execute p (some 0) (some 12) (record { memory = λ a. a; live = 6 }) in
        (status ≡ Status.ok)
        × (p' ≡ p)
        × (m'.live ≡ 6)
        × Serves 1 2 6 4
            (normalized spreading added FftType.complex_to_real true 4)
            0
            12
            (λ a. a)
            m'.memory)
unfolding describe
aocl-Serves_example =
    aocl-Serves (λ _. spreading) inverse_config 5 (record { n = 4; from = 6; to = 4 }) refl
      (omega arith) (omega arith) (λ real. four-IsSmooth) refl added spreading-IsDocumented 0 12
      (record { memory = λ a. a; live = 6 }) (omega arith) (omega arith) (omega arith) (omega arith)
