-- ===== src/Fft/Aocl/Plan.antt =====
-- The AOCL backend behind the public interface: its plans serve every transform of the batch.
use dsp_dispatch.Base.{
  ℕ, suc, ◌*◌, ◌^◌, ◌<◌, ◌≡◌, refl, ap, arith, size_mod, Disjoint, Bool, true, false, some,
  if◌then◌else◌, Bool-cases, inl, inr,
}
use dsp_dispatch.Base.Machine.{Machine}
use dsp_dispatch.Fft.Types.{Status, FftPrecision, FftPlanConfig, Result, is_empty, of_value}
use dsp_dispatch.Fft.Direction.{contradicts, inverts, resolve-inverts}
use dsp_dispatch.Fft.Layout.{in_width, out_width, Serves}
use dsp_dispatch.Fft.Plan.{BackendPlan, FftPlan, fft_plan, create, execute}
use dsp_dispatch.Fft.Aocl.{
  Fftz, AoclState, is_real, describe, new_state, make_typed, make_backend_plan,
}
use dsp_dispatch.Fft.Aocl.Length.{aocl_real_length_supported, IsSmooth, supported_iff}
use dsp_dispatch.Fft.Aocl.Execute.{Spectrum, IsDocumented, normalized, aocl_execute-Serves}

module _ (fftz : FftPrecision → Fftz) (cfg : FftPlanConfig) where
  abbrev library : Fftz
  library = fftz cfg.precision

  abbrev inverse : Bool
  inverse = inverts cfg.type cfg.direction

  abbrev state : AoclState library
  state = new_state library cfg.precision cfg inverse

  module _ (live : ℕ) (h : library.Handle) (agrees : contradicts cfg.type cfg.direction ≡ false)
      (some_length : 0 < cfg.length) (some_batch : 0 < cfg.batch)
      (smooth : is_real cfg.type ≡ true → IsSmooth cfg.length)
      (made : library.setup (describe cfg.type inverse cfg.length cfg.batch) ≡ some h) where
    abbrev plan : FftPlan (Machine library.Float)
    plan = fft_plan (make_typed library state live).0

    tested :
        (if is_real cfg.type then aocl_real_length_supported cfg.length else some true) ≡ some true
    tested = elim (Bool-cases (is_real cfg.type)) [
      | inl real ↦
          let (passed, test, iff) = supported_iff cfg.length some_length in
          rw (real, test) (ap some (iff.1 (smooth real)))
      | inr complex ↦ rw complex refl
    ]

    create-plan :
        (r : Result (BackendPlan (Machine library.Float))) × (make_backend_plan fftz cfg live
          ≡ some (r, suc live))
        × (create r ≡ of_value plan)
    unfolding create make_backend_plan make_typed
    create-plan =
        let work : is_empty cfg ≡ false = ground arith in
        (
          of_value (make_typed library state live).0,
          simp (work, resolve-inverts cfg.type cfg.direction agrees, tested, made),
          refl,
        )

    -- Over a library that does what AOCL-FFTZ documents and gives a handle for the problem, a
    -- configuration whose type does not contradict its direction, with sizes above 0 that fit in
    -- INT32 and `size_t`, and of a real type only with a length that is a product of 2, 3, 5 and 7,
    -- yields a plan, with one more live handle; each call of it, on buffers that are apart, succeeds,
    -- leaves the plan and the live handles as they were, and serves the caller with the transform,
    -- times 1/n where it is an inverse one.
    pub aocl-Serves :
        (f : Spectrum library) (doc : IsDocumented library f) (input output : ℕ)
        (m : Machine library.Float)
        → cfg.length < 2 ^ 31
        → cfg.batch < 2 ^ 31
        → cfg.batch * out_width cfg.type cfg.length < size_mod
        → Disjoint input
            (cfg.batch * in_width cfg.type cfg.length)
            output
            (cfg.batch * out_width cfg.type cfg.length)
        → (r : Result (BackendPlan (Machine library.Float))) × (p : FftPlan (Machine library.Float))
          × (make_backend_plan fftz cfg live ≡ some (r, suc live))
          × (create r ≡ of_value p)
          × (let (status, p', m') = execute p (some input) (some output) m in
              (status ≡ Status.ok)
              × (p' ≡ p)
              × (m'.live ≡ m.live)
              × Serves 1 cfg.batch
                  (in_width cfg.type cfg.length)
                  (out_width cfg.type cfg.length)
                  (normalized library f cfg.type inverse cfg.length)
                  input
                  output
                  m.memory
                  m'.memory)
    unfolding execute make_typed
    aocl-Serves f doc input output m ln lb fits apart =
        let (r, backend, created) = create-plan in
        let (status, same, kept, served) =
          aocl_execute-Serves library f doc cfg.type cfg.direction state h input output m refl refl
            made made some_length ln some_batch lb fits apart in
        (
          r,
          plan,
          backend,
          created,
          (status, ap (λ s. record plan { state = s }) same, kept, served),
        )
