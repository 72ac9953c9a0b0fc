-- ===== src/Fir/Cmsis/Stream.antt =====
-- A call of `cmsis_execute`, as a step of the streams.
use native.Mathlib.Nat.{add_assoc}
use dsp_dispatch.Base.{
  ℕ, ◌+◌, ◌-◌, ◌*◌, ◌^◌, ◌<◌, ◌≡◌, refl, ◌∙◌, arith, for_range, mul_size_row, add_size, sub_size,
  row-le, size_mod, Memory, Vector, copy, copy_inside, Disjoint, Disjoint-IsOrdered, IsRound,
  rows_lem, ◌⊎◌, inl, inr,
}
use dsp_dispatch.Base.Int.{to_uint_lem}
use dsp_dispatch.Base.Cpp.{CppType, Numbers}
use dsp_dispatch.Fir.Types.{Status}
use dsp_dispatch.Fir.Response.{past, BlockOf}
use dsp_dispatch.Fir.Cmsis.{
  ArmFir, CmsisFirState, Work, state_len_of, state_len, channel, cmsis_execute,
}

pub state_len_of_lem :
    (taps block : ℕ)
    → 0 < taps
    → taps < 2 ^ 16
    → block < 2 ^ 32
    → state_len_of taps block ≡ taps + block - 1
unfolding state_len_of add_size sub_size
state_len_of_lem taps block some few small = omega arith

module _ (num : Numbers) (sample : CppType) (arm : ArmFir (num.Value sample)) where
  open num use {Value}

  -- An instance that was initialised for so many taps and blocks of that size.
  abbrev pub Made : (taps block : ℕ) → arm.Instance → Type 0
  Made taps block i =
      (coeffs : ℕ → Value sample) × (state : ℕ → Value sample) × (i
        ≡ (arm.fir_init taps coeffs state block).0)

  -- What CMSIS-DSP documents of an instance for these taps `h` and blocks of that size, `y` being its
  -- filter: the initialisation clears the state buffer, and a run, with the coefficients in the
  -- reverse order and the samples before a time at the start of the state buffer, gives the filtered
  -- block, and leaves the samples before the next block at the start of the state buffer.
  pub record IsDocumented (taps block : ℕ) (h : ℕ → Value sample)
      (y : (ℕ → Value sample) → ℕ → Value sample) : Type 0 where
    pub cleared :
        (coeffs state : ℕ → Value sample) (j : ℕ)
        → j < taps + block - 1
        → (arm.fir_init taps coeffs state block).1 j ≡ num.zero sample
    pub run :
        (x : ℕ → Value sample) (n : ℕ) (i : arm.Instance) (coeffs state source : ℕ → Value sample)
        → Made taps block i
        → ((j : ℕ) → j < taps → coeffs j ≡ h (taps - 1 - j))
        → ((j : ℕ) → j < taps - 1 → state j ≡ past num sample x n (taps - 1) j)
        → ((m : ℕ) → m < block → source m ≡ x (n + m))
        → let (out, left) = arm.fir i coeffs state source block in
          ((k : ℕ) → k < block → out k ≡ y x (n + k))
          × ((j : ℕ) → j < taps - 1 → left j ≡ past num sample x (n + block) (taps - 1) j)

  -- What a call needs of the state: counts above 0 that fit where they are cast to, buffers that fit
  -- in the address space, reversed taps, and instances that were initialised.
  pub record IsCallable (s : CmsisFirState arm) (h : ℕ → Value sample) : Type 0 where
    pub some_taps : 0 < s.tap_count
    pub few_taps : s.tap_count < 2 ^ 16
    pub some_block : 0 < s.block_size
    pub small_block : s.block_size < 2 ^ 32
    pub blocks : s.batch * s.block_size < size_mod
    pub slices : s.batch * (s.tap_count + s.block_size - 1) < size_mod
    pub reversed : (j : ℕ) → j < s.tap_count → s.coeffs.at j ≡ h (s.tap_count - 1 - j)
    pub made : (b : ℕ) → b < s.batch → Made s.tap_count s.block_size (s.inst.at b)

  module _ (s : CmsisFirState arm) (h : ℕ → Value sample) (callable : IsCallable s h)
      (y : (ℕ → Value sample) → ℕ → Value sample)
      (doc : IsDocumented s.tap_count s.block_size h y) where
    abbrev pub len : ℕ
    len = s.tap_count + s.block_size - 1

    -- The slices of the channels hold what comes before time `n`.
    abbrev pub Holds : (ℕ → ℕ → Value sample) → ℕ → Vector (Value sample) → Type 0
    Holds x n v =
        (b j : ℕ)
        → b < s.batch
        → j < s.tap_count - 1
        → v.at (b * len + j) ≡ past num sample (x b) n (s.tap_count - 1) j

    length : state_len arm s ≡ len
    length =
        state_len_of_lem s.tap_count s.block_size callable.some_taps callable.few_taps
          callable.small_block

    abbrev call : (input b : ℕ) → Work arm → (ℕ → Value sample) × (ℕ → Value sample)
    call input b w =
        arm.fir (s.inst.at b) s.coeffs.at (λ j. w.state.at (b * len + j))
          (λ j. w.memory (input + b * s.block_size + j)) s.block_size

    channel-call :
        (input output b : ℕ) (w : Work arm)
        → b < s.batch
        → channel arm s input output b w ≡ record {
          state = record w.state { at = copy len (call input b w).1 (b * len) w.state.at };
          memory = copy s.block_size (call input b w).0 (output + b * s.block_size) w.memory;
        }
    unfolding channel
    channel-call input output b w hb =
        rw
          (
            length,
            mul_size_row b s.batch s.block_size hb callable.blocks,
            mul_size_row b s.batch len hb callable.slices,
            to_uint_lem s.block_size callable.small_block,
          )
          refl

    module _ (input output : ℕ)
        (apart : Disjoint input (s.batch * s.block_size) output (s.batch * s.block_size))
        (x : ℕ → ℕ → Value sample) (n : ℕ) where
      abbrev row : ℕ → ℕ → Value sample
      row b m = x b (n + m)

      abbrev filtered_row : ℕ → ℕ → Value sample
      filtered_row b i = y (x b) (n + i)

      abbrev SliceAt : ℕ → ℕ → Work arm → Type 0
      SliceAt time b w =
          (j : ℕ)
          → j < s.tap_count - 1
          → w.state.at (b * len + j) ≡ past num sample (x b) time (s.tap_count - 1) j

      slice_kept :
          (time b c : ℕ) (w : Work arm)
          → b < s.batch
          → (b < c) ⊎ (c < b)
          → SliceAt time c w
          → SliceAt time c (channel arm s input output b w)
      slice_kept time b c w hb order held j hj = rw (channel-call input output b w hb) (
          ground (
            arith,
            held j hj,
            order,
            row-le {b = b} {n = c} len,
            row-le {b = c} {n = b} len,
            callable.some_block,
          ))

      channel-IsRound :
          IsRound
            (λ (w : Work arm). w.memory)
            s.batch
            input
            output
            s.block_size
            s.block_size
            (channel arm s input output)
            row
            filtered_row
            (SliceAt n)
            (SliceAt (n + s.block_size))
      channel-IsRound = record {
        frame = λ b w j hb o. rw (channel-call input output b w hb) (ground arith);
        serve = λ b w hb ready reads.
            let done =
              doc.run (x b) n (s.inst.at b) s.coeffs.at _ _ (callable.made b hb) callable.reversed
                ready reads in
            rw (channel-call input output b w hb) (
              (λ i hi. copy_inside s.block_size (call input b w).0 _ w.memory i hi ∙ done.0 i hi),
              (λ j hj.
                  copy_inside len (call input b w).1 _ w.state.at j
                    (omega (arith, callable.some_block))
                  ∙ done.1 j hj),
            );
        keep_ready = λ b c w h hc ready. slice_kept n b c w (omega arith) (inl h) ready;
        keep_done = λ b c w h hb done. slice_kept (n + s.block_size) b c w hb (inr h) done;
      }

      -- Over a library that does what CMSIS-DSP documents, from slices that hold the samples before
      -- time `n`, a call on buffers that do not overlap succeeds, its output is the filtered signal of
      -- each channel at the times of the block, the slices then hold the samples before the next
      -- block, and nothing else of the state changes.
      pub cmsis_execute-response :
          (mem : Memory (Value sample))
          → Holds x n s.state
          → BlockOf s.batch s.block_size x n (λ j. mem (input + j))
          → let (status, s', mem') = cmsis_execute arm s input output mem in
            (status ≡ Status.ok)
            × BlockOf s.batch s.block_size (λ b. y (x b)) n (λ j. mem' (output + j))
            × Holds x (n + s.block_size) s'.state
            × (s' ≡ record s { state = s'.state })
      unfolding cmsis_execute
      cmsis_execute-response mem held fed = (
        refl,
        λ b i hb hi. rw (← add_assoc output (b * s.block_size) i) ((served b hb).0 i hi),
        λ b j hb hj. (served b hb).1 j hj,
        refl,
      )
        where
          first : Work arm
          first = record { state = s.state; memory = mem }

          last : Work arm
          last = for_range s.batch 0 (channel arm s input output) first

          served :
              (b : ℕ)
              → b < s.batch
              → ((j : ℕ)
                  → j < s.block_size
                  → last.memory (output + b * s.block_size + j) ≡ filtered_row b j)
                × SliceAt (n + s.block_size) b last
          served =
              rows_lem _ s.batch input output s.block_size s.block_size _ row filtered_row
                (SliceAt n) (SliceAt (n + s.block_size)) channel-IsRound
                (Disjoint-IsOrdered s.batch input s.block_size output s.block_size apart) first
                (λ b hb j hj. held b j hb hj) (λ b hb m hm. rw add_assoc (fed b m hb hm))
