-- ===== src/Fft/Kfr/Plan.antt =====
-- The KFR backend of the benchmarks behind `FftPlan::create`: its plans serve every transform of the
-- batch.
use mathlib.Core.Path.{subst}
use dsp_dispatch.Base.{
  ℕ, ◌*◌, ◌<◌, ◌≡◌, refl, sym, arith, Bool, false, size_mod, Memory, Disjoint, List,
}
use dsp_dispatch.Fft.Types.{
  Status, FftType, FftPrecision, FftPlanConfig, is_empty, is_inverse, of_value,
}
use dsp_dispatch.Fft.Layout.{Serves}
use dsp_dispatch.Fft.Plan.{FftPlan, fft_plan, create}
use dsp_dispatch.Fft.Calls.{calls, AllServed, calls-AllServed}
use dsp_dispatch.Fft.Kfr.Execute.{IsDocumented, normalized, kfr_execute-Serves}
use dsp_dispatch.Fft.Kfr.{
  KfrLibrary, KfrState, new_state, kfr_execute, make_typed, make_backend_plan,
}

module _ (kfr : FftPrecision → KfrLibrary) (cfg : FftPlanConfig)
    (complex : cfg.type ≡ FftType.complex)
    (f : (inverse : Bool) → ℕ → (ℕ → (kfr cfg.precision).Float) → ℕ → (kfr cfg.precision).Float)
    (doc : IsDocumented (kfr cfg.precision) f) where
  abbrev library : KfrLibrary
  library = kfr cfg.precision

  -- What a call owes.
  abbrev pub ServesRows : (input output : ℕ) → Memory library.Float → Memory library.Float → Type 0
  ServesRows input output mem mem' =
      Serves 1 cfg.batch (2 * cfg.length) (2 * cfg.length)
        (normalized library f (is_inverse cfg.direction) cfg.length) input output mem mem'

  abbrev first : KfrState library
  first = new_state library cfg.length cfg.batch (is_inverse cfg.direction)

  -- The states that calls reach.
  abbrev IsReached : KfrState library → Type 0
  IsReached s = s ≡ record first { temp = s.temp }

  -- Over a library that does what KFR documents, a configuration of type `Complex` with a length and
  -- a batch above 0, and a product of them that fits in `size_t`, yields a plan, and each of any
  -- number of calls of it, on buffers that are apart, succeeds and serves the caller with the
  -- transform, times 1/n on the inverse direction.
  pub kfr-Serves :
      (input output : ℕ) (ms : List (Memory library.Float))
      → 0 < cfg.length
      → 0 < cfg.batch
      → cfg.batch * cfg.length < size_mod
      → Disjoint input (cfg.batch * (2 * cfg.length)) output (cfg.batch * (2 * cfg.length))
      → (p : FftPlan (Memory library.Float)) × (create (make_backend_plan kfr cfg) ≡ of_value p)
        × AllServed (ServesRows input output) ms (calls p input output ms)
  unfolding create make_backend_plan make_typed
  kfr-Serves input output ms hn hb fits apart =
      let work : is_empty cfg ≡ false = ground arith in
      (
        fft_plan (make_typed library cfg (is_inverse cfg.direction)),
        simp (work, complex),
        calls-AllServed (fft_plan (make_typed library cfg (is_inverse cfg.direction))) input output
            (ServesRows input output) IsReached step ms first refl,
      )
    where
      step :
          (s : KfrState library) (m : Memory library.Float)
          → IsReached s
          → let (st, s', m') = kfr_execute library s input output m in
            (st ≡ Status.ok) × ServesRows input output m m' × IsReached s'
      step s m reached =
          subst
            (λ t.
              let (st, s', m') = kfr_execute library t input output m in
              (st ≡ Status.ok) × ServesRows input output m m' × IsReached s')
            (sym reached)
            (kfr_execute-Serves library f doc cfg.length cfg.batch (is_inverse cfg.direction) fits
              s.temp input output apart m)
