-- ===== src/Fft/Mkl/Tests.antt =====
-- The theorems on MKL plans at concrete configurations, over a stand-in for the library whose
-- descriptors are their settings, and whose transforms give every scalar of a row the length, the factor and the first scalar of the row.
use dsp_dispatch.Base.{
  Bool, Memory, if◌then◌else◌, ℕ, ◌+◌, ◌*◌, ◌<◌, ◌≡◌, refl, ap, arith, true, false, some,
}
use dsp_dispatch.Base.Machine.{Machine}
use dsp_dispatch.Base.Int.{pos}
use dsp_dispatch.Fft.Types.{Status, FftType, FftPrecision, FftDirection, FftPlanConfig, of_value}
use dsp_dispatch.Fft.Direction.{contradicts, inverts}
use dsp_dispatch.Fft.Layout.{Serves, unit, in_side, out_side}
use dsp_dispatch.Fft.Examples.{spread, spread_lem}
use dsp_dispatch.Fft.Plan.{FftPlan, create, execute}
use dsp_dispatch.Fft.Mkl.{DftiConfigValue, Dfti, dfti_ok, is_real, domain_of, make_backend_plan}
use dsp_dispatch.Fft.Mkl.Settings.{apply}
use dsp_dispatch.Fft.Mkl.View.{View, compute, with_setting, IsDocumented, Spectrum}
use dsp_dispatch.Fft.Mkl.Create.{accepted, live_after, mkl-create_live, mkl-destroy_live}
use dsp_dispatch.Fft.Mkl.Plan.{mkl-Serves}

abbrev unset : View ℕ
unset = record {
  precision = DftiConfigValue.single;
  domain = DftiConfigValue.complex;
  length = 0;
  place = DftiConfigValue.single;
  storage = DftiConfigValue.single;
  transforms = 1;
  input_step = 0;
  output_step = 0;
  scale = 1;
}

-- the scalars of an element on the side of a domain
abbrev unit_of : DftiConfigValue → ℕ
unit_of c = if is_real c then 1 else 2

abbrev toy : Dfti ℕ
toy = record {
  Double = ℕ;
  one = 1;
  div = λ a b. 10 * a + b;
  of_size = λ n. n;
  Descriptor = View ℕ;
  error_class = λ st. false;
  create_descriptor =
      λ p d dimension n. (pos 0, record unset { precision = p; domain = d; length = n; scale = 1 });
  set_value = λ s v. (pos 0, with_setting s v);
  commit_descriptor = λ v. (pos 0, v);
  compute_forward = λ v input output mem. (
    pos 0,
    λ a.
        v.length
        + 1
        + spread (v.input_step * unit_of v.domain) (v.output_step * 2) input output mem a,
  );
  compute_backward = λ v input output mem. (
    pos 0,
    λ a.
        v.length
        + v.scale
        + spread (v.input_step * 2) (v.output_step * unit_of v.domain) input output mem a,
  );
}

-- one that refuses to commit
abbrev unwilling : Dfti ℕ
unwilling = record toy { commit_descriptor = λ v. (pos 7, v) }

abbrev added : Spectrum toy
added p t inverse x n row j = n + x + row 0

-- A computation gives the first scalar of the row, the length and the factor.
compute_lem :
    (t : FftType) (d : FftDirection) (v : View ℕ) (input output b j a c : ℕ) (mem : Memory ℕ)
    → contradicts t d ≡ false
    → v.domain ≡ domain_of t
    → j < v.output_step * unit (out_side t)
    → a ≡ output + (b * (v.output_step * unit (out_side t)) + j)
    → c ≡ input + b * (v.input_step * unit (in_side t))
    → let (st, mem') = compute toy (inverts t d) v input output mem in
      mem' a ≡ v.length + (if inverts t d then v.scale else 1) + mem c
compute_lem FftType.complex FftDirection.forward v input output b j a c mem agrees domain hj at_a
      at_c =
    rw domain (ap (λ r. v.length + 1 + r) (spread_lem _ _ input output b j a c mem hj at_a at_c))
compute_lem FftType.complex FftDirection.inverse v input output b j a c mem agrees domain hj at_a
      at_c =
    rw domain
      (ap (λ r. v.length + v.scale + r) (spread_lem _ _ input output b j a c mem hj at_a at_c))
compute_lem FftType.real_to_complex FftDirection.forward v input output b j a c mem agrees domain hj
      at_a at_c =
    rw domain (ap (λ r. v.length + 1 + r) (spread_lem _ _ input output b j a c mem hj at_a at_c))
compute_lem FftType.real_to_complex FftDirection.inverse v input output b j a c mem agrees domain hj
      at_a at_c =
    absurd (ground (arith, agrees))
compute_lem FftType.complex_to_real d v input output b j a c mem agrees domain hj at_a at_c =
    rw domain
      (ap (λ r. v.length + v.scale + r) (spread_lem _ _ input output b j a c mem hj at_a at_c))

compute-ok :
    (back : Bool) (v : View ℕ) (input output : ℕ) (mem : Memory ℕ)
    → dfti_ok toy (compute toy back v input output mem).0 ≡ true
unfolding dfti_ok
compute-ok true v input output mem = refl
compute-ok false v input output mem = refl

toy-IsDocumented : IsDocumented toy added
unfolding dfti_ok
toy-IsDocumented = record {
  Is = λ h v. h ≡ v;
  IsCommitted = λ h v. h ≡ v;
  default = unset;
  made = λ p d n ok. refl;
  set = λ s h v is ok. ap (with_setting s) is;
  committed = λ h v is ok. is;
  computed =
      λ t d h v input output mem agrees is domain place storage hn ln hb lb li lo parts tile apart.
        rw is (
          compute-ok (inverts t d) v input output mem,
          λ b j hb' hj.
              compute_lem t d v input output b j _ _ mem agrees domain (omega (arith, hj, tile))
                (omega arith) (omega arith),
        );
}

-- two transforms of three bins into four reals
abbrev config : FftPlanConfig
config = record {
  type = FftType.complex_to_real;
  precision = FftPrecision.f64;
  length = 4;
  batch = 2;
  direction = FftDirection.forward;
}

toy-accepted : accepted toy config ≡ true
unfolding dfti_ok apply
toy-accepted = refl

mkl-Serves_example :
    (p : FftPlan (Machine ℕ)) × (create (make_backend_plan toy config 3).0 ≡ of_value p)
    × (let (status, p', m') = execute p (some 0) (some 12) (record { memory = λ a. a; live = 3 }) in
        (status ≡ Status.ok)
        × (p' ≡ p)
        × (m'.live ≡ 3)
        × Serves 1 2 6 4
            (added DftiConfigValue.double FftType.complex_to_real true 14 4)
            0
            12
            (λ a. a)
            m'.memory)
mkl-Serves_example =
    mkl-Serves toy added toy-IsDocumented config refl toy-accepted 0 12 (omega arith) (omega arith)
      (omega arith) (omega arith) (omega arith) 3 (λ a. a)

mkl-create_live_example :
    let (backend, live') = make_backend_plan unwilling config 3 in
    ((create backend).status ≡ Status.backend_error) × (live' ≡ 3)
unfolding dfti_ok apply
mkl-create_live_example = mkl-create_live unwilling config 3

mkl-destroy_live_example : live_after toy config (λ a. a) 3 ≡ 3
mkl-destroy_live_example = mkl-destroy_live toy config (λ a. a) 3
