-- ===== src/Fir/Bank.antt =====
-- What the backends over libraries with filter objects have in common: a bank of objects, one for each
-- channel, made from the same taps, run on the blocks of their channels, and reset together.
pub mod Stream
use dsp_dispatch.Base.{ℕ, suc, ◌+◌, for_range, mul_size, Memory, Vector, store, copy}

-- A library's filter objects: made from a number of taps, run on a number of samples, of which they
-- give as many, and reset.
pub record Filter (A T : Type 0) : Type 1 where
  pub Object : Type 0
  pub create : (ℕ → T) → ℕ → Object
  pub execute_block : Object → (ℕ → A) → ℕ → (ℕ → A) × Object
  pub reset : Object → Object

module _ {A T : Type 0} (filter : Filter A T) where
  -- The state of a backend with such objects.
  pub record Bank : Type 0 where
    pub block_size : ℕ
    pub batch : ℕ
    pub filters : Vector filter.Object

  -- What the rounds of a call change.
  pub record Work : Type 0 where
    pub filters : Vector filter.Object
    pub memory : Memory A

  -- The filters that are created in a loop over the batch, and pushed back.
  unfoldable pub new_filters : (batch : ℕ) → (ℕ → T) → (tap_count : ℕ) → Vector filter.Object
  new_filters batch taps tap_count =
      for_range batch 0
        (λ i v. record { size = suc v.size; at = store v.at v.size (filter.create taps tap_count) })
        (record { size = 0; at = λ _. filter.create taps tap_count })

  -- A round of the loop over the channels; `count` is the block size as it is handed over.
  unfoldable pub bank_round : Bank → (count : ℕ) → (input output b : ℕ) → Work → Work
  bank_round s count input output b w =
      let offset = mul_size b s.block_size in
      let (out, q) =
        filter.execute_block (w.filters.at b) (λ j. w.memory (input + offset + j)) count in
      record {
        filters = record w.filters { at = store w.filters.at b q };
        memory = copy count out (output + offset) w.memory;
      }

  unfoldable pub run_bank : Bank → (count : ℕ) → (input output : ℕ) → Memory A → Bank × Memory A
  run_bank s count input output mem =
      let w =
        for_range s.batch 0 (bank_round s count input output)
          (record { filters = s.filters; memory = mem }) in
      (record s { filters = w.filters }, w.memory)

  -- `for (auto q : s.filters) reset(q)`
  unfoldable pub reset_bank : Bank → Bank
  reset_bank s = record s {
    filters =
        for_range s.filters.size 0 (λ i v. record v { at = store v.at i (filter.reset (v.at i)) })
          s.filters;
  }
