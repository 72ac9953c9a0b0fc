-- ===== src/Fft/Kfr/Execute.antt =====
-- A call of `kfr_execute`, over a library that does what KFR documents.
use dsp_dispatch.Base.{
  ℕ, ◌+◌, ◌*◌, ◌<◌, ◌≡◌, refl, sym, ap, ◌∙◌, fun_ext, arith, Bool, true, false, if◌then◌else◌,
  mul_size_row, size_mod, Memory, copy, copy_inside, copy-Outside, for_range, Outside, Disjoint,
  Disjoint-IsOrdered, IsRound, rows_lem,
}
use dsp_dispatch.Fft.Types.{Status}
use dsp_dispatch.Fft.Layout.{Serves}
use dsp_dispatch.Fft.Scale.{scale_complex, IsScaled, complex_loop}
use dsp_dispatch.Fft.Kfr.{KfrLibrary, KfrState, Work, new_state, transform, kfr_execute}

row_start : (b n : ℕ) → 2 * (b * n) ≡ b * (2 * n)
row_start b n = omega arith

-- What either of two memories holds at an address, the chosen one holds.
either_at :
    {A : Type 0} (c : Bool) (x y : Memory A) (j : ℕ) (v : A)
    → x j ≡ v
    → y j ≡ v
    → (if c then x else y) j ≡ v
either_at true x y j v e e' = e
either_at false x y j v e e' = e'

choice_at :
    {A : Type 0} (c : Bool) (x y : Memory A) (j : ℕ) {u v : A}
    → x j ≡ u
    → y j ≡ v
    → (if c then x else y) j ≡ (if c then u else v)
choice_at true x y j e e' = e
choice_at false x y j e e' = e'

module _ (kfr : KfrLibrary) where
  open kfr use {Float}

  -- What KFR documents of its plans: a run transforms the row, whatever its buffer holds.
  abbrev pub IsDocumented : ((inverse : Bool) → ℕ → (ℕ → Float) → ℕ → Float) → Type 0
  IsDocumented f =
      (n : ℕ) (inverse : Bool) (source row : ℕ → Float) (temp : kfr.Temp)
      → ((i : ℕ) → i < 2 * n → source i ≡ row i)
      → (j : ℕ) → j < 2 * n
      → (kfr.execute (kfr.dft_plan n) source temp inverse).0 j ≡ f inverse n row j

  -- What the public contract makes of it: 1/n on the inverse direction.
  abbrev pub normalized :
      ((inverse : Bool) → ℕ → (ℕ → Float) → ℕ → Float)
      → (inverse : Bool) → ℕ
      → (ℕ → Float)
      → ℕ
      → Float
  normalized f inverse n row j =
      if inverse
      then kfr.mul (f inverse n row j) (kfr.div kfr.one (kfr.of_size n))
      else f inverse n row j

  module _ (f : (inverse : Bool) → ℕ → (ℕ → Float) → ℕ → Float) (doc : IsDocumented f) (n batch : ℕ)
      (inverse : Bool) (fits : batch * n < size_mod) (temp : kfr.Temp) where
    -- a state that calls reach, whatever its buffer holds
    abbrev state : KfrState kfr
    state = record (new_state kfr n batch inverse) { temp = temp }

    module _ (input output : ℕ) (apart : Disjoint input (batch * (2 * n)) output (batch * (2 * n)))
        (mem : Memory Float) where
      abbrev row : ℕ → ℕ → Float
      row b i = mem (input + b * (2 * n) + i)

      abbrev ran : (b : ℕ) → Work kfr → Memory Float
      ran b w =
          copy (2 * n)
            (kfr.execute (kfr.dft_plan n) (λ i. w.memory (input + b * (2 * n) + i)) w.temp
              inverse).0
            (output + b * (2 * n)) w.memory

      abbrev scaled : (b : ℕ) → Work kfr → Memory Float
      scaled b w =
          for_range n 0
            (scale_complex kfr.mul (kfr.div kfr.one (kfr.of_size n)) (output + b * (2 * n)))
            (ran b w)

      transform-memory :
          (b : ℕ) (w : Work kfr)
          → b < batch
          → (transform kfr state input output b w).memory
            ≡ (if inverse then scaled b w else ran b w)
      unfolding transform new_state
      transform-memory b w hb = rw (mul_size_row b batch n hb fits, row_start b n) refl

      -- The scaling of the row, where it is an inverse one, and nothing else.
      scaling :
          (b : ℕ) (w : Work kfr)
          → IsScaled kfr.mul
              (output + b * (2 * n))
              (ran b w)
              (kfr.div kfr.one (kfr.of_size n))
              (2 * n)
              (scaled b w)
      scaling b w = complex_loop kfr.mul (output + b * (2 * n)) (ran b w) _ n

      transform-others :
          (b j : ℕ) (w : Work kfr)
          → b < batch
          → Outside j (output + b * (2 * n)) (2 * n)
          → (transform kfr state input output b w).memory j ≡ w.memory j
      transform-others b j w hb o = rw (transform-memory b w hb) (
          either_at inverse (scaled b w) (ran b w) j (w.memory j) ((scaling b w).others j o ∙ kept)
            kept)
        where
          kept : ran b w j ≡ w.memory j
          kept =
              copy-Outside (2 * n)
                (kfr.execute (kfr.dft_plan n) (λ i. w.memory (input + b * (2 * n) + i)) w.temp
                  inverse).0
                (output + b * (2 * n)) w.memory j o

      transform-row :
          (b : ℕ) (w : Work kfr)
          → b < batch
          → ((i : ℕ) → i < 2 * n → w.memory (input + b * (2 * n) + i) ≡ row b i)
          → (j : ℕ) → j < 2 * n
          → (transform kfr state input output b w).memory (output + b * (2 * n) + j)
            ≡ normalized f inverse n (row b) j
      transform-row b w hb reads j hj = rw (transform-memory b w hb) (
          choice_at inverse (scaled b w) (ran b w) _
            ((scaling b w).scaled j hj
              ∙ ap (λ v. kfr.mul v (kfr.div kfr.one (kfr.of_size n))) there)
            there)
        where
          there : ran b w (output + b * (2 * n) + j) ≡ f inverse n (row b) j
          there =
              copy_inside (2 * n)
                (kfr.execute (kfr.dft_plan n) (λ i. w.memory (input + b * (2 * n) + i)) w.temp
                  inverse).0
                (output + b * (2 * n)) w.memory j hj
              ∙ doc n inverse (λ i. w.memory (input + b * (2 * n) + i)) (row b) w.temp reads j hj

      transform-IsRound :
          IsRound
            (λ (w : Work kfr). w.memory)
            batch
            input
            output
            (2 * n)
            (2 * n)
            (transform kfr state input output)
            row
            (λ b. normalized f inverse n (row b))
            (λ _ _. Unit {0})
            (λ _ _. Unit {0})
      transform-IsRound = record {
        frame = λ b w j hb o. transform-others b j w hb o;
        serve = λ b w hb ready reads. (transform-row b w hb reads, tt);
        keep_ready = λ b c w h hc ready. tt;
        keep_done = λ b c w h hb done. tt;
      }

      pub kfr_execute-Serves :
          let (status, s', mem') = kfr_execute kfr state input output mem in
          (status ≡ Status.ok)
          × Serves 1 batch (2 * n) (2 * n) (normalized f inverse n) input output mem mem'
          × (s' ≡ record state { temp = s'.temp })
      unfolding kfr_execute new_state
      kfr_execute-Serves = (
        refl,
        λ b j hb hj.
            ap last.memory (at_row output b j)
            ∙ (rows_lem _ batch input output (2 * n) (2 * n) _ row _ _ _ transform-IsRound
                  (Disjoint-IsOrdered batch input (2 * n) output (2 * n) apart) first (λ b hb. tt)
                  (λ b hb i hi. refl) b hb).0
                j hj
            ∙ ap (λ r. normalized f inverse n r j) (fun_ext (λ i. ap mem (sym (at_row input b i)))),
        refl,
      )
        where
          first : Work kfr
          first = record { temp = state.temp; memory = mem }

          last : Work kfr
          last = for_range batch 0 (transform kfr state input output) first

          at_row : (base b j : ℕ) → base + (b * (2 * n) + j) * 1 ≡ base + b * (2 * n) + j
          at_row base b j = omega arith
