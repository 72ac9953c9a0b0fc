-- ===== src/Fir/Cmsis/Start.antt =====
-- The state that a creation makes: reversed taps, cleared slices, and initialised instances.
use dsp_dispatch.Base.{
  ℕ, suc, ◌+◌, ◌-◌, ◌*◌, ◌^◌, ◌<◌, ◌≡◌, refl, ap, ◌∙◌, arith, for_range_inv, mul_size, mul_size_row,
  sub_size, size_mod, Vector, copy, store, assign, lt-suc_cases, store_self, store_ne, inl, inr,
}
use native.Mathlib.Nat.{mod-eq_of_lt}
use dsp_dispatch.Base.Int.{to_uint_lem}
use dsp_dispatch.Base.Cpp.{CppType, Numbers}
use dsp_dispatch.Fir.Cmsis.{
  ArmFir, CmsisFirState, state_len_of, state_len, reversed_taps, init_round, new_state,
}
use dsp_dispatch.Fir.Cmsis.Stream.{Made, IsDocumented, state_len_of_lem}

module _ (num : Numbers) (sample : CppType) (arm : ArmFir (num.Value sample)) where
  open num use {Value}

  abbrev zero_of : Value sample
  zero_of = num.zero sample

  -- Coefficient `j` is the tap that as many come after as there are coefficients before it.
  pub reversed_taps_lem :
      (count : ℕ) (taps : ℕ → Value sample)
      → count < 2 ^ 16
      → (j : ℕ) → j < count
      → (reversed_taps arm zero_of count taps).at j ≡ taps (count - 1 - j)
  unfolding reversed_taps sub_size
  reversed_taps_lem count taps few =
      for_range_inv
        (λ k (v : Vector (Value sample)). (j : ℕ) → j < k → v.at j ≡ taps (count - 1 - j)) _ count
        count 0 _ (omega arith) (λ k v lo hk d j hj. ground (arith, d j))
        (λ j h. absurd (omega arith))

  module _ (block batch count : ℕ) (taps : ℕ → Value sample)
      (y : (ℕ → Value sample) → ℕ → Value sample)
      (doc : IsDocumented num sample arm count block taps y) (some_taps : 0 < count)
      (few_taps : count < 2 ^ 16) (some_block : 0 < block) (small_block : block < 2 ^ 32)
      (blocks : batch * block < size_mod) (slices : batch * (count + block - 1) < size_mod) where
    abbrev base : CmsisFirState arm
    base = record {
      block_size = block;
      batch = batch;
      tap_count = count;
      coeffs = reversed_taps arm zero_of count taps;
      state = assign (mul_size batch (state_len_of count block)) zero_of;
      inst = assign batch arm.blank;
    }

    -- What the rounds below `k` have done.
    pub record IsStarted (k : ℕ) (s : CmsisFirState arm) : Type 0 where
      pub same : s ≡ record base { state = s.state; inst = s.inst }
      pub made : (b : ℕ) → b < k → Made num sample arm count block (s.inst.at b)
      pub cleared : (a : ℕ) → s.state.at a ≡ zero_of

    abbrev len : ℕ
    len = count + block - 1

    abbrev call : (b : ℕ) → CmsisFirState arm → arm.Instance × (ℕ → Value sample)
    call b s = arm.fir_init count s.coeffs.at (λ j. s.state.at (b * len + j)) block

    init_round-call :
        (b : ℕ) (s : CmsisFirState arm)
        → b < batch
        → IsStarted b s
        → init_round arm block count b s ≡ record s {
          inst = record s.inst { at = store s.inst.at b (call b s).0 };
          state = record s.state { at = copy len (call b s).1 (b * len) s.state.at };
        }
    unfolding init_round
    init_round-call b s hb d =
        rw
          (
            ap (λ t. state_len arm t) d.same,
            state_len_of_lem count block some_taps few_taps small_block,
            mul_size_row b batch len hb slices,
            to_uint_lem block small_block,
            mod-eq_of_lt few_taps,
          )
          refl

    init_round-IsStarted :
        (b : ℕ) (s : CmsisFirState arm)
        → b < batch
        → IsStarted b s
        → IsStarted (suc b) (init_round arm block count b s)
    init_round-IsStarted b s hb d = rw (init_round-call b s hb d) (record {
      same =
          ap
            (λ (t : CmsisFirState arm). record t {
              inst = record s.inst { at = store s.inst.at b (call b s).0 };
              state = record s.state { at = copy len (call b s).1 (b * len) s.state.at };
            })
            d.same;
      made = λ c hc. elim (lt-suc_cases c b hc) [
        | inl before ↦
            let (coeffs, state, e) = d.made c before in
            (coeffs, state, store_ne s.inst.at b c _ (omega arith) ∙ e)
        | inr same ↦ (
          s.coeffs.at,
          (λ j. s.state.at (b * len + j)),
          ap (store s.inst.at b (call b s).0) same ∙ store_self s.inst.at b _,
        )
      ];
      cleared = λ a. ground (
        arith,
        d.cleared a,
        doc.cleared s.coeffs.at (λ j. s.state.at (b * len + j)) (a - b * len),
      );
    })

    pub new_state-IsStarted : IsStarted batch (new_state arm zero_of block batch count taps)
    unfolding new_state
    new_state-IsStarted =
        for_range_inv IsStarted _ batch batch 0 base (omega arith)
          (λ b s lo hb. init_round-IsStarted b s hb)
          (record { same = refl; made = λ b h. absurd (omega arith); cleared = λ a. refl })
