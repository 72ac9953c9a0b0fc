-- ===== src/Fft/Calls.antt =====
-- A client's calls of an `FftPlan`, one after the other, each on a memory of its own.
use dsp_dispatch.Base.{ℕ, ◌≡◌, List, [], ◌∷◌, some}
use dsp_dispatch.Fft.Types.{Status}
use dsp_dispatch.Fft.Plan.{FftPlan, execute}

module _ {M : Type 0} where
  -- The status of every call, and the machine that it left.
  unfoldable pub calls : FftPlan M → (input output : ℕ) → List M → List (Status × M)
  calls p input output [] = []
  calls p input output (m ∷ ms) =
      let (st, p', m') = execute p (some input) (some output) m in
      (st, m') ∷ calls p' input output ms

  -- Every call succeeds, and what it left stands in a relation to what it found.
  abbrev pub AllServed : (M → M → Type 0) → List M → List (Status × M) → Type 0
  AllServed R [] [] = Unit
  AllServed R (m ∷ ms) ((st, m') ∷ rest) = (st ≡ Status.ok) × R m m' × AllServed R ms rest
  AllServed R _ _ = ⊥

  -- It is enough that the calls keep an invariant of the state in which they serve.
  pub calls-AllServed :
      (p : FftPlan M) (input output : ℕ) (R : M → M → Type 0) (Ready : p.State → Type 0)
      → ((s : p.State) (m : M)
          → Ready s
          → let (st, s', m') = p.run s input output m in (st ≡ Status.ok) × R m m' × Ready s')
      → (ms : List M) (s : p.State) → Ready s
      → AllServed R ms (calls (record p { state = s }) input output ms)
  unfolding calls execute
  calls-AllServed p input output R Ready step [] s ready = tt
  calls-AllServed p input output R Ready step (m ∷ ms) s ready =
      let (served, related, next) = step s m ready in
      (served, related, calls-AllServed p input output R Ready step ms _ next)
