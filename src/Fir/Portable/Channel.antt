-- ===== src/Fir/Portable/Channel.antt =====
-- One channel of a call: the block that it writes and the history that it leaves.
use dsp_dispatch.Base.{
  ℕ, ◌+◌, ◌-◌, ◌*◌, ◌<◌, ◌≡◌, ap, ◌∙◌, arith, mul_size_row, row-le, size_mod, Memory, Outside,
  Disjoint,
}
use dsp_dispatch.Base.Cpp.{CppType, Numbers}
use dsp_dispatch.Fir.Response.{past, response}
use dsp_dispatch.Fir.Portable.{PortableState, Work, history_len, write_block, save_history, channel}
use dsp_dispatch.Fir.Portable.Sample.{write_block_frame, write_block-response}

module _ {num : Numbers} {sample tap : CppType} (s : PortableState num sample tap) where
  open num use {Value}

  -- The new history holds the samples that come before the next block.
  save_history-past :
      (x : ℕ → Value sample) (n bin hist : ℕ) (w : Work (Value sample))
      → ((j : ℕ)
          → j < history_len s
          → w.history.at (hist + j) ≡ past num sample x n (history_len s) j)
      → ((m : ℕ) → m < s.block_size → w.memory (bin + m) ≡ x (n + m))
      → (j : ℕ) → j < history_len s
      → (save_history s bin hist w).history.at (hist + j)
        ≡ past num sample x (n + s.block_size) (history_len s) j
  unfolding save_history
  save_history-past x n bin hist w held read j hj =
      ground (arith, held (s.block_size + j), read (s.block_size + j - history_len s))

  save_history_frame :
      (bin hist : ℕ) (w : Work (Value sample)) (j : ℕ)
      → Outside j hist (history_len s)
      → (save_history s bin hist w).history.at j ≡ w.history.at j
  unfolding save_history
  save_history_frame bin hist w j o = ground arith

  -- What a call needs of its sizes and of its two buffers: no product wraps, and the buffers do not
  -- overlap.
  pub record IsCallable (input output : ℕ) : Type 0 where
    pub fits : s.tap_count + s.block_size < size_mod
    pub blocks : s.batch * s.block_size < size_mod
    pub histories : s.batch * history_len s < size_mod
    pub apart : Disjoint input (s.batch * s.block_size) output (s.batch * s.block_size)

  module _ (input output b : ℕ) (callable : IsCallable input output) (hb : b < s.batch) where
    abbrev after_write : Work (Value sample) → Work (Value sample)
    after_write w = record w {
      memory =
          write_block s (input + b * s.block_size) (output + b * s.block_size) (b * history_len s)
            w.history w.memory;
    }

    channel-memory :
        (w : Work (Value sample)) → (channel s input output b w).memory ≡ (after_write w).memory
    unfolding channel save_history
    channel-memory w =
        rw
          (
            mul_size_row b s.batch s.block_size hb callable.blocks,
            mul_size_row b s.batch (history_len s) hb callable.histories,
          )
          (ground arith)

    -- Without history there is nothing to save, so the early `continue` changes no cell.
    channel-history :
        (w : Work (Value sample)) (j : ℕ)
        → (channel s input output b w).history.at j
          ≡ (save_history s
                (input + b * s.block_size)
                (b * history_len s)
                (after_write w)).history.at
              j
    unfolding channel save_history
    channel-history w j =
        rw
          (
            mul_size_row b s.batch s.block_size hb callable.blocks,
            mul_size_row b s.batch (history_len s) hb callable.histories,
          )
          (ground arith)

    -- A round writes the memory only in the block of its channel.
    pub channel-memory_frame :
        (w : Work (Value sample)) (j : ℕ)
        → Outside j (output + b * s.block_size) s.block_size
        → (channel s input output b w).memory j ≡ w.memory j
    channel-memory_frame w j o =
        ap (λ (m : Memory (Value sample)). m j) (channel-memory w)
        ∙ write_block_frame s _ _ _ w.history w.memory j o

    -- And the history only in the row of its channel.
    pub channel-history_frame :
        (w : Work (Value sample)) (j : ℕ)
        → Outside j (b * history_len s) (history_len s)
        → (channel s input output b w).history.at j ≡ w.history.at j
    channel-history_frame w j o = channel-history w j ∙ save_history_frame _ _ (after_write w) j o

    module _ (x : ℕ → Value sample) (n : ℕ) (w : Work (Value sample))
        (held : (j : ℕ)
          → j < history_len s
          → w.history.at (b * history_len s + j) ≡ past num sample x n (history_len s) j)
        (read : (m : ℕ)
          → m < s.block_size
          → w.memory (input + b * s.block_size + m) ≡ x (n + m)) where
      own_apart :
          Disjoint (input + b * s.block_size) s.block_size (output + b * s.block_size) s.block_size
      own_apart = omega (arith, callable.apart, row-le s.block_size hb)

      -- The block of the channel holds the responses.
      pub channel-response :
          (i : ℕ)
          → i < s.block_size
          → (channel s input output b w).memory (output + b * s.block_size + i)
            ≡ response num sample tap s.tap_count s.taps.at x (n + i)
      channel-response i hi =
          ap (λ (m : Memory (Value sample)). m (output + b * s.block_size + i)) (channel-memory w)
          ∙ write_block-response s x n _ _ w.history callable.fits held _ w.memory own_apart read i
              hi

      -- The row of the channel holds the samples before the next block.
      pub channel-past :
          (j : ℕ)
          → j < history_len s
          → (channel s input output b w).history.at (b * history_len s + j)
            ≡ past num sample x (n + s.block_size) (history_len s) j
      channel-past j hj =
          channel-history w _
          ∙ save_history-past x n _ _ (after_write w) held
              (λ m hm.
                write_block_frame s _ _ _ w.history w.memory _ (omega (arith, own_apart))
                ∙ read m hm)
              j hj
