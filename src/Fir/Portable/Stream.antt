-- ===== src/Fir/Portable/Stream.antt =====
-- One call of `portable_execute` over all channels, as a step of the streams.
use dsp_dispatch.Base.{
  ℕ, suc, ◌+◌, ◌*◌, ◌≤◌, ◌<◌, ◌≡◌, refl, ◌∙◌, arith, for_range, for_range_inv, row-le, Memory,
  Outside, inl, inr, lt-suc_cases,
}
use native.Mathlib.Nat.{add_assoc}
use dsp_dispatch.Base.Cpp.{CppType, Numbers}
use dsp_dispatch.Fir.Types.{Status}
use dsp_dispatch.Fir.Response.{past, response, Tracks, BlockOf, filtered}
use dsp_dispatch.Fir.Portable.{PortableState, Work, history_len, channel, portable_execute}
use dsp_dispatch.Fir.Portable.Channel.{
  IsCallable, channel-memory_frame, channel-history_frame, channel-response, channel-past,
}

module _ {num : Numbers} {sample tap : CppType} (s : PortableState num sample tap) where
  open num use {Value}

  abbrev start : Memory (Value sample) → Work (Value sample)
  start mem = record { history = s.history; combined = s.combined; memory = mem }

  module _ (input output : ℕ) (mem : Memory (Value sample)) where
    abbrev After : ℕ → Work (Value sample) → Type 0
    After b w = (j : ℕ) → Outside j output (b * s.block_size) → w.memory j ≡ mem j

    -- A call with sizes that fit in `size_t` and buffers that do not overlap changes no cell
    -- outside its output buffer, whatever the input is.
    pub execute_frame :
        IsCallable s input output
        → (j : ℕ) → Outside j output (s.batch * s.block_size)
        → (portable_execute s input output mem).2 j ≡ mem j
    unfolding portable_execute
    execute_frame callable j o =
        for_range_inv (λ b (w : Work (Value sample)). w.memory j ≡ mem j) _ s.batch s.batch 0
          (start mem) (omega arith)
          (λ b w lo hb p.
            channel-memory_frame s input output b callable hb w j
              (omega (arith, row-le s.block_size hb))
            ∙ p)
          refl

    -- What the loop over the channels has done before round `b`.
    record IsDone (x : ℕ → ℕ → Value sample) (n b : ℕ) (w : Work (Value sample)) : Type 0 where
      served :
          (c i : ℕ)
          → c < b
          → i < s.block_size
          → w.memory (output + c * s.block_size + i)
            ≡ response num sample tap s.tap_count s.taps.at (x c) (n + i)
      saved :
          (c j : ℕ)
          → c < b
          → j < history_len s
          → w.history.at (c * history_len s + j)
            ≡ past num sample (x c) (n + s.block_size) (history_len s) j
      waiting :
          (c j : ℕ)
          → b ≤ c
          → c < s.batch
          → j < history_len s
          → w.history.at (c * history_len s + j) ≡ past num sample (x c) n (history_len s) j
      unread : (j : ℕ) → Outside j output (s.batch * s.block_size) → w.memory j ≡ mem j

    module _ (callable : IsCallable s input output) (x : ℕ → ℕ → Value sample) (n : ℕ)
        (fed : BlockOf s.batch s.block_size x n (λ j. mem (input + j))) where
      channel-IsDone :
          (b : ℕ) (w : Work (Value sample))
          → b < s.batch
          → IsDone x n b w
          → IsDone x n (suc b) (channel s input output b w)
      channel-IsDone b w hb done = record {
        served = λ c i hc hi. elim (lt-suc_cases c b hc) [
          | inl before ↦
              channel-memory_frame s input output b callable hb w _
                (omega (arith, row-le s.block_size before))
              ∙ done.served c i before hi
          | inr now ↦
              rw now (channel-response s input output b callable hb (x b) n w held read i hi)
        ];
        saved = λ c j hc hj. elim (lt-suc_cases c b hc) [
          | inl before ↦
              channel-history_frame s input output b callable hb w _
                (omega (arith, row-le (history_len s) before))
              ∙ done.saved c j before hj
          | inr now ↦ rw now (channel-past s input output b callable hb (x b) n w held read j hj)
        ];
        waiting = λ c j lo hc hj.
            channel-history_frame s input output b callable hb w _
              (omega (arith, row-le {b = b} (history_len s) lo))
            ∙ done.waiting c j (omega arith) hc hj;
        unread = λ j o.
            channel-memory_frame s input output b callable hb w j
              (omega (arith, row-le s.block_size hb))
            ∙ done.unread j o;
      }
        where
          held :
              (j : ℕ)
              → j < history_len s
              → w.history.at (b * history_len s + j) ≡ past num sample (x b) n (history_len s) j
          held j hj = done.waiting b j (omega arith) hb hj

          read : (m : ℕ) → m < s.block_size → w.memory (input + b * s.block_size + m) ≡ x b (n + m)
          read m hm = rw add_assoc (
              done.unread (input + (b * s.block_size + m))
                (omega (arith, callable.apart, row-le s.block_size hb))
              ∙ fed b m hb hm)

      all-IsDone :
          Tracks num sample s.batch (history_len s) s.history.at x n
          → IsDone x n s.batch (for_range s.batch 0 (channel s input output) (start mem))
      all-IsDone held =
          for_range_inv (IsDone x n) _ s.batch s.batch 0 (start mem) (omega arith)
            (λ b w lo hb. channel-IsDone b w hb)
            (record {
              served = λ c i h. absurd (omega arith);
              saved = λ c j h. absurd (omega arith);
              waiting = λ c j lo. held c j;
              unread = λ j o. refl;
            })

      -- From delay lines that hold the samples before time `n`, with sizes that fit in `size_t`
      -- and buffers that do not overlap, a call succeeds, its output is the response of each
      -- channel at the times of the block, and the delay lines then hold the samples before the
      -- next block.
      pub execute-response :
          Tracks num sample s.batch (history_len s) s.history.at x n
          → let (status, s', mem') = portable_execute s input output mem in
            (status ≡ Status.ok)
            × BlockOf s.batch s.block_size
                (filtered num sample tap s.tap_count s.taps.at x)
                n
                (λ j. mem' (output + j))
            × Tracks num sample s.batch (history_len s) s'.history.at x (n + s.block_size)
      unfolding portable_execute
      execute-response held =
          let done = all-IsDone held in
          (
            refl,
            λ b i hb hi. rw (← add_assoc output (b * s.block_size) i) (done.served b i hb hi),
            λ b j hb hj. done.saved b j hb hj,
          )
