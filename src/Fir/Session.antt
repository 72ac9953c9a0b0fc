-- ===== src/Fir/Session.antt =====
-- A client's session with a `FirPlan`: before each call it puts a block into the input buffer, and
-- after it it reads the output buffer. What a backend owes is one step; here are all of them.
use mathlib.Core.Path.{subst}
use dsp_dispatch.Base.{
  ℕ, ◌+◌, ◌*◌, ◌≡◌, refl, sym, ◌∙◌, arith, List, [], ◌∷◌, some, Memory, copy, copy_inside, row-le,
}
use dsp_dispatch.Base.Machine.{Machine}
use dsp_dispatch.Fir.Types.{Status}
use dsp_dispatch.Fir.Response.{BlockOf}
use dsp_dispatch.Fir.Plan.{FirPlan, execute, clear}

-- Where a machine keeps the memory of the client.
pub record View (M A : Type 0) : Type 0 where
  pub cells : M → Memory A
  pub with_cells : Memory A → M → M
  pub cells-with_cells : (a : Memory A) (m : M) → cells (with_cells a m) ≡ a

-- A machine that is a memory.
abbrev pub plain : {A : Type 0} → View (Memory A) A
plain = record { cells = λ m. m; with_cells = λ a m. a; cells-with_cells = λ a m. refl }

-- A machine that keeps count of a library's objects.
abbrev pub counted : {A : Type 0} → View (Machine A) A
counted = record {
  cells = λ m. m.memory;
  with_cells = λ a m. record m { memory = a };
  cells-with_cells = λ a m. refl;
}

module _ {M A : Type 0} (view : View M A) where
  -- One status and one output block for each block that goes in, the plan and the machine after.
  unfoldable pub session :
      FirPlan M
      → (input output total : ℕ) → List (ℕ → A)
      → M
      → List (Status × (ℕ → A)) × FirPlan M × M
  unfolding execute
  session p input output total [] m = ([], p, m)
  session p input output total (u ∷ us) m =
      let fed = view.with_cells (copy total u input (view.cells m)) m in
      let (st, p', m') = execute p (some input) (some output) fed in
      let (replies, p'', m'') = session p' input output total us m' in
      ((st, λ j. view.cells m' (output + j)) ∷ replies, p'', m'')

module _ {A : Type 0} (batch block : ℕ) where
  -- The blocks of a session carry the signals `x` from time `n` on.
  abbrev pub Carries : (ℕ → ℕ → A) → ℕ → List (ℕ → A) → Type 0
  Carries x n [] = Unit
  Carries x n (u ∷ us) = BlockOf batch block x n u × Carries x (n + block) us

  -- Every block is answered, with success and with the signals `y`.
  abbrev pub Answers : (ℕ → ℕ → A) → ℕ → List (ℕ → A) → List (Status × (ℕ → A)) → Type 0
  Answers y n [] [] = Unit
  Answers y n (u ∷ us) ((st, out) ∷ rest) =
      (st ≡ Status.ok) × BlockOf batch block y n out × Answers y (n + block) us rest
  Answers y n _ _ = ⊥

  BlockOf-copy :
      (x : ℕ → ℕ → A) (n input : ℕ) (u : ℕ → A) (mem : Memory A)
      → BlockOf batch block x n u
      → BlockOf batch block x n (λ j. copy (batch * block) u input mem (input + j))
  BlockOf-copy x n input u mem fed b i hb hi =
      copy_inside (batch * block) u input mem (b * block + i) (omega (arith, row-le block hb))
      ∙ fed b i hb hi

-- What a streaming backend owes for a plan, the batch and the block size that it was made for, two
-- buffers, and the filter `y` that it applies to the signals of the channels: an invariant that says
-- that a state has processed the signals `x` up to time `n`, such that the first state has processed
-- nothing, a call processes a block and answers it, and `clear` returns to the start of any signals.
pub record IsStreaming {M A : Type 0} (view : View M A) (p : FirPlan M)
    (batch block input output : ℕ) (y : (ℕ → ℕ → A) → ℕ → ℕ → A) : Type 1 where
  pub Has : (ℕ → ℕ → A) → p.State → ℕ → Type 0
  pub start : (x : ℕ → ℕ → A) → Has x p.state 0
  pub step :
      (x : ℕ → ℕ → A) (s : p.State) (n : ℕ) (m : M)
      → Has x s n
      → BlockOf batch block x n (λ j. view.cells m (input + j))
      → let (st, s', m') = p.run s input output m in
        (st ≡ Status.ok)
        × BlockOf batch block (y x) n (λ j. view.cells m' (output + j))
        × Has x s' (n + block)
  pub restart :
      (x x' : ℕ → ℕ → A) (s : p.State) (n : ℕ)
      → Has x s n
      → let (st, s') = p.reset s in (st ≡ Status.ok) × Has x' s' 0

module _ {M A : Type 0} {view : View M A} {p : FirPlan M} {batch block input output : ℕ}
    {y : (ℕ → ℕ → A) → ℕ → ℕ → A} (streaming : IsStreaming view p batch block input output y) where
  abbrev plan_at : p.State → FirPlan M
  plan_at s = record p { state = s }

  abbrev from : p.State → List (ℕ → A) → M → List (Status × (ℕ → A)) × FirPlan M × M
  from s us m = session view (plan_at s) input output (batch * block) us m

  module _ (x : ℕ → ℕ → A) where
    step-copy :
        (u : ℕ → A) (s : p.State) (n : ℕ) (m : M)
        → streaming.Has x s n
        → BlockOf batch block x n u
        → let m₀ = view.with_cells (copy (batch * block) u input (view.cells m)) m in
          let (st, s', m') = p.run s input output m₀ in
          (st ≡ Status.ok)
          × BlockOf batch block (y x) n (λ j. view.cells m' (output + j))
          × streaming.Has x s' (n + block)
    step-copy u s n m has fed =
        streaming.step x s n _ has
          (rw view.cells-with_cells (BlockOf-copy batch block x n input u (view.cells m) fed))

    session-Answers :
        (us : List (ℕ → A)) (s : p.State) (n : ℕ) (m : M)
        → streaming.Has x s n
        → Carries batch block x n us
        → Answers batch block (y x) n us (from s us m).0
    unfolding session
    session-Answers [] s n m has carried = tt
    session-Answers (u ∷ us) s n m has carried =
        let served = step-copy u s n m has carried.0 in
        (served.0, served.1, session-Answers us _ (n + block) _ served.2 carried.1)

    -- The plan after a session is the plan before it, with a state that has processed the signals.
    session-Has :
        (us : List (ℕ → A)) (s : p.State) (n : ℕ) (m : M)
        → streaming.Has x s n
        → Carries batch block x n us
        → (s' : p.State) × (k : ℕ) × streaming.Has x s' k × ((from s us m).1 ≡ plan_at s')
    unfolding session
    session-Has [] s n m has carried = (s, n, has, refl)
    session-Has (u ∷ us) s n m has carried =
        let served = step-copy u s n m has carried.0 in
        session-Has us _ (n + block) _ served.2 carried.1

  -- A streaming plan answers every session with the filtered signals.
  pub IsStreaming-Answers :
      (x : ℕ → ℕ → A) (us : List (ℕ → A)) (m : M)
      → Carries batch block x 0 us
      → Answers batch block (y x) 0 us (session view p input output (batch * block) us m).0
  IsStreaming-Answers x us m carried = session-Answers x us p.state 0 m (streaming.start x) carried

  abbrev Restarts : (ℕ → ℕ → A) → List (ℕ → A) → M → FirPlan M → Type 0
  Restarts x vs m q =
      ((clear q).0 ≡ Status.ok)
      × Answers batch block (y x) 0 vs
          (session view (clear q).1 input output (batch * block) vs m).0

  -- Whatever it has processed, after `clear` it answers a session as a new plan does.
  pub IsStreaming-clear :
      (x x' : ℕ → ℕ → A) (us vs : List (ℕ → A)) (m m' : M)
      → Carries batch block x 0 us
      → Carries batch block x' 0 vs
      → let q = (session view p input output (batch * block) us m).1 in
        ((clear q).0 ≡ Status.ok)
        × Answers batch block
            (y x')
            0
            vs
            (session view (clear q).1 input output (batch * block) vs m').0
  unfolding clear
  IsStreaming-clear x x' us vs m m' carried carried' =
      let (s, n, has, end) = session-Has x us p.state 0 m (streaming.start x) carried in
      let cleared = streaming.restart x x' s n has in
      subst (Restarts x' vs m') (sym end)
        (cleared.0, session-Answers x' vs _ 0 m' cleared.1 carried')

-- A session is answered with the signals `y`, `clear` succeeds, and a session with the same plan
-- after it is answered with the signals `y'`.
abbrev pub AnswersAnew :
    {M A : Type 0} (view : View M A) (p : FirPlan M) (batch block input output : ℕ)
    → (y y' : ℕ → ℕ → A) (us vs : List (ℕ → A)) (m m' : M) → Type 0
AnswersAnew view p batch block input output y y' us vs m m' =
    let total = batch * block in
    let (replies, q, _) = session view p input output total us m in
    Answers batch block y 0 us replies
    × ((clear q).0 ≡ Status.ok)
    × Answers batch block y' 0 vs (session view (clear q).1 input output total vs m').0

pub IsStreaming-AnswersAnew :
    {M A : Type 0} {view : View M A} {p : FirPlan M} {batch block input output : ℕ}
    {y : (ℕ → ℕ → A) → ℕ → ℕ → A} (streaming : IsStreaming view p batch block input output y)
    (x x' : ℕ → ℕ → A) (us vs : List (ℕ → A)) (m m' : M)
    → Carries batch block x 0 us
    → Carries batch block x' 0 vs
    → AnswersAnew view p batch block input output (y x) (y x') us vs m m'
IsStreaming-AnswersAnew streaming x x' us vs m m' carried carried' =
    let (cleared, anew) = IsStreaming-clear streaming x x' us vs m m' carried carried' in
    (IsStreaming-Answers streaming x us m carried, cleared, anew)
