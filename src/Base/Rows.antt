-- ===== src/Base/Rows.antt =====
-- A loop over the rows of a batch: row `b` of the input buffer is read, row `b` of the output buffer
-- is written, and a part of the state may belong to each row.
use Prim.Native.Nat.{ℕ, suc, ◌+◌, ◌*◌, ◌≤◌, ◌<◌}
use mathlib.Core.Path.{◌≡◌, refl, ◌∙◌}
use mathlib.Core.Logic.{inl, inr}
use native.Mathlib.Omega.{arith}
use dsp_dispatch.Base.Tests.{lt-suc_cases}
use dsp_dispatch.Base.Loop.{for_range, for_range_inv}
use dsp_dispatch.Base.Word.{row-le}
use dsp_dispatch.Base.Buffer.{Memory, Disjoint, Outside}

-- No row is written before a later row has been read. (Buffers that do not overlap, and equal
-- buffers with rows of one width, are such.)
abbrev pub IsOrdered : (batch input read_width output write_width : ℕ) → Type 0
IsOrdered batch input wi output wo =
    (b c : ℕ) → b < c → c < batch → Disjoint (input + c * wi) wi (output + b * wo) wo

pub Disjoint-IsOrdered :
    (batch input wi output wo : ℕ)
    → Disjoint input (batch * wi) output (batch * wo)
    → IsOrdered batch input wi output wo
Disjoint-IsOrdered batch input wi output wo apart b c before hc =
    omega (arith, apart, row-le wi hc, row-le {b = b} {n = batch} wo (omega arith))

pub same-IsOrdered : (batch p w : ℕ) → IsOrdered batch p w p w
same-IsOrdered batch p w b c before hc = inr (omega (arith, row-le w before))

module _ {A S : Type 0} (memory : S → Memory A) (batch input output wi wo : ℕ) where
  abbrev pub Reads : (ℕ → ℕ → A) → ℕ → S → Type 0
  Reads row b s = (j : ℕ) → j < wi → memory s (input + b * wi + j) ≡ row b j

  abbrev pub Wrote : (ℕ → ℕ → A) → ℕ → S → Type 0
  Wrote result b s = (j : ℕ) → j < wo → memory s (output + b * wo + j) ≡ result b j

  -- What one round does.
  pub record IsRound (body : ℕ → S → S) (row result : ℕ → ℕ → A) (Ready Done : ℕ → S → Type 0)
      : Type 0 where
    pub frame :
        (b : ℕ) (s : S) (j : ℕ)
        → b < batch
        → Outside j (output + b * wo) wo
        → memory (body b s) j ≡ memory s j
    pub serve :
        (b : ℕ) (s : S)
        → b < batch
        → Ready b s
        → Reads row b s
        → Wrote result b (body b s) × Done b (body b s)
    pub keep_ready : (b c : ℕ) (s : S) → b < c → c < batch → Ready c s → Ready c (body b s)
    pub keep_done : (b c : ℕ) (s : S) → c < b → b < batch → Done c s → Done c (body b s)

  -- What the rounds below `b` have done.
  pub record IsDone (row result : ℕ → ℕ → A) (Ready Done : ℕ → S → Type 0) (b : ℕ) (s : S)
      : Type 0 where
    pub wrote : (c : ℕ) → c < b → Wrote result c s
    pub done : (c : ℕ) → c < b → Done c s
    pub ready : (c : ℕ) → b ≤ c → c < batch → Ready c s
    pub reads : (c : ℕ) → b ≤ c → c < batch → Reads row c s

  module _ (body : ℕ → S → S) (row result : ℕ → ℕ → A) (Ready Done : ℕ → S → Type 0)
      (round : IsRound body row result Ready Done) where
    -- Nothing but the output rows is written.
    pub rows_frame :
        (s : S) (j : ℕ)
        → Outside j output (batch * wo)
        → memory (for_range batch 0 body s) j ≡ memory s j
    rows_frame s j o =
        for_range_inv (λ b t. memory t j ≡ memory s j) body batch batch 0 s (omega arith)
          (λ b t lo hb e. round.frame b t j hb (omega (arith, row-le wo hb)) ∙ e) refl

    pub round-IsDone :
        IsOrdered batch input wi output wo
        → (b : ℕ) (s : S) → b < batch
        → IsDone row result Ready Done b s
        → IsDone row result Ready Done (suc b) (body b s)
    round-IsDone ordered b s hb d =
        let now = round.serve b s hb (d.ready b (omega arith) hb) (d.reads b (omega arith) hb) in
        record {
          wrote = λ c hc. elim (lt-suc_cases c b hc) [
            | inl before ↦ λ j hj.
                round.frame b s _ hb (omega (arith, row-le wo before)) ∙ d.wrote c before j hj
            | inr same ↦ rw same now.0
          ];
          done = λ c hc. elim (lt-suc_cases c b hc) [
            | inl before ↦ round.keep_done b c s before hb (d.done c before)
            | inr same ↦ rw same now.1
          ];
          ready = λ c lo hc. round.keep_ready b c s lo hc (d.ready c (omega arith) hc);
          reads = λ c lo hc j hj.
              round.frame b s _ hb (omega (arith, ordered b c lo hc))
              ∙ d.reads c (omega arith) hc j hj;
        }

    -- Every row is served.
    pub rows_lem :
        IsOrdered batch input wi output wo
        → (s : S) → ((b : ℕ) → b < batch → Ready b s)
        → ((b : ℕ) → b < batch → Reads row b s)
        → (b : ℕ) → b < batch
        → Wrote result b (for_range batch 0 body s) × Done b (for_range batch 0 body s)
    rows_lem ordered s ready reads b hb = (all.wrote b hb, all.done b hb)
      where
        all : IsDone row result Ready Done batch (for_range batch 0 body s)
        all =
            for_range_inv (IsDone row result Ready Done) body batch batch 0 s (omega arith)
              (λ c t lo hc. round-IsDone ordered c t hc)
              (record {
                wrote = λ c h. absurd (omega arith);
                done = λ c h. absurd (omega arith);
                ready = λ c lo. ready c;
                reads = λ c lo. reads c;
              })
