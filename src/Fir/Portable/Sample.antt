-- ===== src/Fir/Portable/Sample.antt =====
-- One output sample, and the block of one channel: the two inner loops of `portable_execute`.
use dsp_dispatch.Base.{
  ℕ, zero, suc, ◌+◌, ◌-◌, ◌<◌, ◌≡◌, refl, ◌∙◌, arith, leb, for_range_inv, add_size_lem,
  sub_size_lem, size_mod, Memory, Vector, Outside, Disjoint, Bool-cases, inl, inr, le_of_leb,
  lt_of_leb,
}
use dsp_dispatch.Base.Cpp.{CppType, Numbers}
use dsp_dispatch.Fir.Response.{dot, delayed, past, response}
use dsp_dispatch.Fir.Portable.{PortableState, history_len, input_at, accumulate, write_block}

module _ {num : Numbers} {sample tap : CppType} (s : PortableState num sample tap) where
  open num use {Value}

  -- The inner loop is the sum of the products, whatever the samples are.
  accumulate-dot :
      (bin hist i : ℕ) (history : Vector (Value sample)) (mem : Memory (Value sample))
      → accumulate s bin hist history mem i
        ≡ dot num sample tap s.tap_count (input_at s bin hist history mem i) s.taps.at
  unfolding accumulate dot
  accumulate-dot bin hist i history mem =
      for_range_inv
        (λ k acc. acc ≡ dot num sample tap k (input_at s bin hist history mem i) s.taps.at) _
        s.tap_count s.tap_count 0 (num.zero sample) (omega arith) (λ k acc lo hi e. rw e) refl

  -- The sum looks only at the samples below its bound.
  pub dot_congr :
      (n : ℕ) (x y : ℕ → Value sample) (h : ℕ → Value tap)
      → ((k : ℕ) → k < n → x k ≡ y k)
      → dot num sample tap n x h ≡ dot num sample tap n y h
  unfolding dot
  dot_congr zero x y h same = refl
  dot_congr (suc n) x y h same =
      cc (dot_congr n x y h (λ k p. same k (omega arith)), same n (omega arith))

  -- A block is written to its own cells only, wherever it is read from.
  pub write_block_frame :
      (bin bout hist : ℕ) (history : Vector (Value sample)) (mem : Memory (Value sample)) (j : ℕ)
      → Outside j bout s.block_size
      → write_block s bin bout hist history mem j ≡ mem j
  unfolding write_block
  write_block_frame bin bout hist history mem j o =
      for_range_inv (λ i mem'. mem' j ≡ mem j) _ s.block_size s.block_size 0 mem (omega arith)
        (λ i mem' lo hi p. ground arith) refl

  module _ (x : ℕ → Value sample) (n bin hist : ℕ) (history : Vector (Value sample))
      (fits : s.tap_count + s.block_size < size_mod)
      (held : (j : ℕ)
        → j < history_len s
        → history.at (hist + j) ≡ past num sample x n (history_len s) j) where
    -- A sample that the loop reads is the signal's, `k` steps back.
    input_at-delayed :
        (mem : Memory (Value sample)) (i k : ℕ)
        → i < s.block_size
        → k < s.tap_count
        → ((m : ℕ) → m < s.block_size → mem (bin + m) ≡ x (n + m))
        → input_at s bin hist history mem i k ≡ delayed num sample x (n + i) k
    unfolding input_at
    input_at-delayed mem i k hi hk read = elim (Bool-cases (leb k i)) [
      | inl near ↦ ground (arith, le_of_leb near, read (i - k))
      | inr far ↦ ground (
        arith,
        lt_of_leb far,
        add_size_lem (history_len s) i,
        sub_size_lem (history_len s + i) k,
        held (history_len s + i - k),
      )
    ]

    -- An output sample is the filter's response at its time.
    pub accumulate-response :
        (mem : Memory (Value sample)) (i : ℕ)
        → i < s.block_size
        → ((m : ℕ) → m < s.block_size → mem (bin + m) ≡ x (n + m))
        → accumulate s bin hist history mem i
          ≡ response num sample tap s.tap_count s.taps.at x (n + i)
    accumulate-response mem i hi read =
        accumulate-dot bin hist i history mem
        ∙ dot_congr s.tap_count _ _ s.taps.at (λ k hk. input_at-delayed mem i k hi hk read)

    -- The block of a channel: the response at each time of the block, and no other cell written.
    -- Input and output do not overlap.
    pub write_block-response :
        (bout : ℕ) (mem : Memory (Value sample))
        → Disjoint bin s.block_size bout s.block_size
        → ((m : ℕ) → m < s.block_size → mem (bin + m) ≡ x (n + m))
        → ((i : ℕ)
            → i < s.block_size
            → write_block s bin bout hist history mem (bout + i)
              ≡ response num sample tap s.tap_count s.taps.at x (n + i))
    unfolding write_block
    write_block-response bout mem apart read =
        (for_range_inv
          (λ i mem'.
            ((m : ℕ)
              → m < i
              → mem' (bout + m) ≡ response num sample tap s.tap_count s.taps.at x (n + m))
            × ((j : ℕ) → Outside j bout s.block_size → mem' j ≡ mem j))
          _ s.block_size s.block_size 0 mem (omega arith)
          (λ i mem' lo hi p. (
            λ m hm. ground (
              arith,
              p.0 m,
              accumulate-response mem' i hi (λ q hq. p.1 (bin + q) (omega arith) ∙ read q hq),
            ),
            λ j o. ground (arith, p.1 j o),
          ))
          (λ m h. absurd (omega arith), λ j o. refl)).0
