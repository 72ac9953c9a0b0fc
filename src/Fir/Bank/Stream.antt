-- ===== src/Fir/Bank/Stream.antt =====
-- A bank over a library that filters as documented serves the streams of its channels.
use mathlib.Core.Path.{subst}
use native.Mathlib.Nat.{add_assoc}
use dsp_dispatch.Base.{
  ℕ, suc, ◌+◌, ◌*◌, ◌<◌, ◌≤◌, ◌≡◌, refl, sym, ap, ◌∙◌, arith, for_range, for_range_inv, mul_size,
  mul_size_row, size_mod, Memory, Vector, store, store_self, store_ne, copy_inside, Disjoint,
  Disjoint-IsOrdered, IsRound, rows_lem, lt-suc_cases, inl, inr,
}
use dsp_dispatch.Fir.Response.{BlockOf}
use dsp_dispatch.Fir.Bank.{Filter, Bank, Work, new_filters, bank_round, run_bank, reset_bank}

-- What a library documents of its filter objects, `y` being the filter that it applies for these
-- taps: an object that was made from them, or reset, has been given nothing; one that has been given
-- the samples of a signal before a time, and is run on the block at that time, gives the filtered
-- block, and has been given the samples before the next block.
pub record IsFiltering {A T : Type 0} (filter : Filter A T) (taps : ℕ → T) (tap_count block : ℕ)
    (y : (ℕ → A) → ℕ → A) : Type 1 where
  pub Given : (ℕ → A) → ℕ → filter.Object → Type 0
  pub created : (x : ℕ → A) → Given x 0 (filter.create taps tap_count)
  pub run :
      (x : ℕ → A) (n : ℕ) (q : filter.Object) (u : ℕ → A)
      → Given x n q
      → ((m : ℕ) → m < block → u m ≡ x (n + m))
      → let (out, q') = filter.execute_block q u block in
        ((i : ℕ) → i < block → out i ≡ y x (n + i)) × Given x (n + block) q'
  pub fresh : (x x' : ℕ → A) (n : ℕ) (q : filter.Object) → Given x n q → Given x' 0 (filter.reset q)

module _ {A T : Type 0} (filter : Filter A T) where
  -- Every object that is created is in the vector.
  record IsFilled (object : filter.Object) (k : ℕ) (v : Vector filter.Object) : Type 0 where
    size : v.size ≡ k
    filled : (i : ℕ) → i < k → v.at i ≡ object

  new_filters-IsFilled :
      (batch : ℕ) (taps : ℕ → T) (tap_count : ℕ)
      → IsFilled (filter.create taps tap_count) batch (new_filters filter batch taps tap_count)
  unfolding new_filters
  new_filters-IsFilled batch taps tap_count =
      for_range_inv (IsFilled (filter.create taps tap_count)) _ batch batch 0 _ (omega arith)
        (λ k v lo hk d. record {
          size = ap suc d.size;
          filled = λ i hi. rw d.size (ground (arith, d.filled i));
        })
        (record { size = refl; filled = λ i h. absurd (omega arith) })

  pub size-new_filters :
      (batch : ℕ) (taps : ℕ → T) (tap_count : ℕ)
      → (new_filters filter batch taps tap_count).size ≡ batch
  size-new_filters batch taps tap_count = (new_filters-IsFilled batch taps tap_count).size

  module _ (taps : ℕ → T) (tap_count block batch : ℕ) (y : (ℕ → A) → ℕ → A)
      (filtering : IsFiltering filter taps tap_count block y) where
    -- The bank has processed the signals up to time `n`.
    pub record Has (x : ℕ → ℕ → A) (s : Bank filter) (n : ℕ) : Type 0 where
      pub block_size : s.block_size ≡ block
      pub channels : s.batch ≡ batch
      pub size : s.filters.size ≡ batch
      pub given : (b : ℕ) → b < batch → filtering.Given (x b) n (s.filters.at b)

    pub new-Has :
        (x : ℕ → ℕ → A)
        → Has x
            (record {
              block_size = block;
              batch = batch;
              filters = new_filters filter batch taps tap_count;
            })
            0
    new-Has x =
        let all = new_filters-IsFilled batch taps tap_count in
        record {
          block_size = refl;
          channels = refl;
          size = all.size;
          given = λ b hb. rw (all.filled b hb) (filtering.created (x b));
        }

    -- The objects below `k` have been reset, and the others not yet.
    record Reset (x x' : ℕ → ℕ → A) (n k : ℕ) (v : Vector filter.Object) : Type 0 where
      size : v.size ≡ batch
      fresh : (i : ℕ) → i < k → i < batch → filtering.Given (x' i) 0 (v.at i)
      left : (i : ℕ) → k ≤ i → i < batch → filtering.Given (x i) n (v.at i)

    reset-Reset :
        (x x' : ℕ → ℕ → A) (n k : ℕ) (v : Vector filter.Object)
        → Reset x x' n k v
        → Reset x x' n (suc k) (record v { at = store v.at k (filter.reset (v.at k)) })
    reset-Reset x x' n k v d = record {
      size = d.size;
      fresh = λ i hi hb. elim (lt-suc_cases i k hi) [
        | inl before ↦
            subst (filtering.Given (x' i) 0) (sym (store_ne v.at k i _ (omega arith)))
              (d.fresh i before hb)
        | inr now ↦ rw now (
            subst (filtering.Given (x' k) 0) (sym (store_self v.at k _))
              (filtering.fresh (x k) (x' k) n (v.at k) (d.left k (omega arith) (omega arith))))
      ];
      left = λ i lo hb.
          subst (filtering.Given (x i) n) (sym (store_ne v.at k i _ (omega arith)))
            (d.left i (omega arith) hb);
    }

    pub reset_bank-Has :
        (x x' : ℕ → ℕ → A) (s : Bank filter) (n : ℕ) → Has x s n → Has x' (reset_bank filter s) 0
    unfolding reset_bank
    reset_bank-Has x x' s n has =
        let done =
          for_range_inv (Reset x x' n) _ s.filters.size s.filters.size 0 s.filters (omega arith)
            (λ k v lo hk. reset-Reset x x' n k v)
            (record {
              size = has.size;
              fresh = λ i h. absurd (omega arith);
              left = λ i lo. has.given i;
            }) in
        record {
          block_size = has.block_size;
          channels = has.channels;
          size = done.size;
          given = λ b hb. done.fresh b (omega (arith, has.size)) hb;
        }

    module _ (input output : ℕ) (fits : batch * block < size_mod)
        (apart : Disjoint input (batch * block) output (batch * block)) (x : ℕ → ℕ → A) (n : ℕ)
        (s : Bank filter) (has : Has x s n) where
      abbrev row : ℕ → ℕ → A
      row b m = x b (n + m)

      abbrev filtered_row : ℕ → ℕ → A
      filtered_row b i = y (x b) (n + i)

      abbrev Ready : ℕ → Work filter → Type 0
      Ready b w = filtering.Given (x b) n (w.filters.at b)

      abbrev Done : ℕ → Work filter → Type 0
      Done b w = filtering.Given (x b) (n + block) (w.filters.at b)

      offset : (b : ℕ) → b < batch → mul_size b s.block_size ≡ b * block
      offset b hb = rw has.block_size (mul_size_row b batch block hb fits)

      abbrev called : ℕ → Work filter → (ℕ → A) × filter.Object
      called b w =
          filter.execute_block (w.filters.at b) (λ j. w.memory (input + b * block + j)) block

      round-IsRound :
          IsRound
            (λ (w : Work filter). w.memory)
            batch
            input
            output
            block
            block
            (bank_round filter s block input output)
            row
            filtered_row
            Ready
            Done
      unfolding bank_round
      round-IsRound = record {
        frame = λ b w j hb o. rw (offset b hb) (ground arith);
        serve = λ b w hb ready reads.
            let ran = filtering.run (x b) n (w.filters.at b) _ ready reads in
            rw (offset b hb) (
              (λ i hi. copy_inside block (called b w).0 _ w.memory i hi ∙ ran.0 i hi),
              subst (filtering.Given (x b) (n + block)) (sym (store_self w.filters.at b _)) ran.1,
            );
        keep_ready = λ b c w h hc ready.
            subst (filtering.Given (x c) n) (sym (store_ne w.filters.at b c _ (omega arith))) ready;
        keep_done = λ b c w h hb done.
            subst (filtering.Given (x c) (n + block))
              (sym (store_ne w.filters.at b c _ (omega arith))) done;
      }

      -- A run answers the block of every channel, and the bank has then processed it.
      pub run_bank-Has :
          (mem : Memory A)
          → BlockOf batch block x n (λ j. mem (input + j))
          → let (s', mem') = run_bank filter s block input output mem in
            BlockOf batch block (λ b. y (x b)) n (λ j. mem' (output + j)) × Has x s' (n + block)
      unfolding run_bank bank_round
      run_bank-Has mem fed = rw has.channels (
        λ b i hb hi. rw (← add_assoc output (b * block) i) ((served b hb).0 i hi),
        record {
          block_size = has.block_size;
          channels = refl;
          size = rounds-size;
          given = λ b hb. (served b hb).1;
        },
      )
        where
          first : Work filter
          first = record { filters = s.filters; memory = mem }

          last : Work filter
          last = for_range batch 0 (bank_round filter s block input output) first

          served :
              (b : ℕ)
              → b < batch
              → ((j : ℕ) → j < block → last.memory (output + b * block + j) ≡ filtered_row b j)
                × Done b last
          served =
              rows_lem _ batch input output block block _ row filtered_row Ready Done round-IsRound
                (Disjoint-IsOrdered batch input block output block apart) first has.given
                (λ b hb m hm. rw add_assoc (fed b m hb hm))

          rounds-size : last.filters.size ≡ batch
          rounds-size =
              for_range_inv (λ b (w : Work filter). w.filters.size ≡ batch) _ batch batch 0 first
                (omega arith) (λ b w lo hb e. e) has.size

      -- The same, of a call that hands over the block size as another expression.
      pub run_bank_count-Has :
          (count : ℕ) (mem : Memory A)
          → count ≡ block
          → BlockOf batch block x n (λ j. mem (input + j))
          → let (s', mem') = run_bank filter s count input output mem in
            BlockOf batch block (λ b. y (x b)) n (λ j. mem' (output + j)) × Has x s' (n + block)
      run_bank_count-Has count mem e fed = rw e (run_bank-Has mem fed)
