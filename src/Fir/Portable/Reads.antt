-- ===== src/Fir/Portable/Reads.antt =====
-- Which cells `portable_execute` reads: those of the history vector and of the input block, and no
-- others.
use dsp_dispatch.Base.{
  ℕ, ◌+◌, ◌-◌, ◌*◌, ◌<◌, ◌≡◌, sym, ◌∙◌, arith, ltb, if◌then◌else◌, Memory, Vector, row-le,
}
use dsp_dispatch.Base.Cpp.{CppType, Numbers}
use dsp_dispatch.Fir.Response.{Tracks, BlockOf}
use dsp_dispatch.Fir.Portable.{PortableState, history_len, portable_execute}
use dsp_dispatch.Fir.Portable.Channel.{IsCallable}
use dsp_dispatch.Fir.Portable.Stream.{execute-response}
use dsp_dispatch.Fir.Portable.Sizes.{IsAllocated}

module _ {num : Numbers} {sample tap : CppType} (s : PortableState num sample tap) where
  open num use {Value}

  -- The same state with other cells beyond the end of the history, and another `combined`.
  abbrev pub with_vectors :
      (ℕ → Value sample) → Vector (Value sample) → PortableState num sample tap
  with_vectors at combined = record s {
    history = record { size = s.history.size; at = at };
    combined = combined;
  }

  -- A call on the one and on the other gives the same samples and delay lines.
  abbrev pub Alike :
      (other : PortableState num sample tap) (input output : ℕ)
      → Memory (Value sample)
      → Memory (Value sample)
      → Type 0
  Alike other input output mem mem' =
      let (st, t, m) = portable_execute s input output mem in
      let (st', t', m') = portable_execute other input output mem' in
      (st ≡ st')
      × ((b i : ℕ)
          → b < s.batch
          → i < s.block_size
          → m (output + (b * s.block_size + i)) ≡ m' (output + (b * s.block_size + i)))
      × ((b j : ℕ)
          → b < s.batch
          → j < history_len s
          → t.history.at (b * history_len s + j) ≡ t'.history.at (b * history_len s + j))

  module _ (input output : ℕ) (mem : Memory (Value sample)) where
    -- The delay line of each channel and then its block, as one signal.
    abbrev seen : ℕ → ℕ → Value sample
    seen b m =
        if ltb m (history_len s)
        then s.history.at (b * history_len s + m)
        else mem (input + (b * s.block_size + (m - history_len s)))

    seen-block : BlockOf s.batch s.block_size seen (history_len s) (λ j. mem (input + j))
    seen-block b i hb hi = ground arith

    seen-Tracks : Tracks num sample s.batch (history_len s) s.history.at seen (history_len s)
    seen-Tracks b j hb hj = ground arith

    -- With sizes that fit in `size_t`, a history vector of the size of its creation and buffers that
    -- do not overlap: what is beyond the end of the history, outside the input block, or left in
    -- `combined`, shows neither in the samples that a call writes nor in the delay lines that it
    -- keeps.
    pub portable_execute-reads :
        IsCallable s input output
        → IsAllocated s
        → (at : ℕ → Value sample) (combined : Vector (Value sample)) (mem' : Memory (Value sample))
        → ((j : ℕ) → j < s.history.size → at j ≡ s.history.at j)
        → ((j : ℕ) → j < s.batch * s.block_size → mem' (input + j) ≡ mem (input + j))
        → Alike (with_vectors at combined) input output mem mem'
    portable_execute-reads callable sized at combined mem' same fed =
        let (st, out, held) =
          execute-response s input output mem callable seen (history_len s) seen-block
            seen-Tracks in
        let (st', out', held') =
          execute-response other input output mem' callable' seen (history_len s)
            (λ b i hb hi.
              fed (b * s.block_size + i) (omega (arith, row-le s.block_size hb))
              ∙ seen-block b i hb hi)
            (λ b j hb hj.
              same (b * history_len s + j)
                (omega (arith, sized.history_size, row-le (history_len s) hb))
              ∙ seen-Tracks b j hb hj) in
        (
          st ∙ sym st',
          λ b i hb hi. out b i hb hi ∙ sym (out' b i hb hi),
          λ b j hb hj. held b j hb hj ∙ sym (held' b j hb hj),
        )
      where
        other : PortableState num sample tap
        other = with_vectors at combined

        callable' : IsCallable other input output
        callable' = record {
          fits = callable.fits;
          blocks = callable.blocks;
          histories = callable.histories;
          apart = callable.apart;
        }
