-- ===== src/Fir/Ipp/Stream.antt =====
-- A successful call of `ipp_execute`, as a step of the streams.
use native.Mathlib.Nat.{add_assoc}
use mathlib.Core.Path.{subst}
use dsp_dispatch.Base.{
  ℕ, zero, suc, ◌+◌, ◌*◌, ◌<◌, ◌≡◌, refl, ◌∙◌, arith, Option, none, some, ◌==◌, mul_size_row,
  row-le, size_mod, Memory, copy, copy_inside, Disjoint, Disjoint-IsOrdered, IsRound, IsDone,
  round-IsDone, inl, inr, Bool-cases,
}
use dsp_dispatch.Base.Cpp.{CppType, Numbers}
use dsp_dispatch.Fir.Types.{Status}
use dsp_dispatch.Fir.Response.{past, Tracks, BlockOf}
use dsp_dispatch.Fir.Ipp.{
  Ipp, Special, ipp_exec, IppStatus, IppFirState, Work, map_status, ptr_or_null, delay_len,
  ipp_round, ipp_rounds, ipp_execute,
}

module _ {num : Numbers} (ipp : Ipp num) {sample tap : CppType} (k : Special sample tap) where
  open num use {Value}

  -- A delay line holds the `len` samples before time `n`; a null pointer is one without samples.
  abbrev pub Delays : (ℕ → Value sample) → (n len : ℕ) → Option (ℕ → Value sample) → Type 0
  Delays x n len none = len ≡ 0
  Delays x n len (some d) = (j : ℕ) → j < len → d j ≡ past num sample x n len j

  -- What IPP documents of a call with a specification for `len + 1` taps, `y` being its filter: from
  -- a block of a signal, and the samples before it in the delay line, it succeeds, gives the filtered
  -- block, and the delay line of the next block.
  abbrev pub IsDocumented :
      ipp.Spec → (block len : ℕ) → ((ℕ → Value sample) → ℕ → Value sample) → Type 0
  IsDocumented spec block len y =
      (x : ℕ → Value sample) (n : ℕ) (source : ℕ → Value sample) (delay : Option (ℕ → Value sample))
      (work : ipp.Buffer)
      → ((m : ℕ) → m < block → source m ≡ x (n + m))
      → Delays x n len delay
      → let (st, out, after, left) = ipp_exec ipp k block spec source delay work in
        (st ≡ IppStatus.no_err)
        × ((i : ℕ) → i < block → out i ≡ y x (n + i))
        × ((j : ℕ) → j < len → after j ≡ past num sample x (n + block) len j)

module _ {num : Numbers} {ipp : Ipp num} {sample tap : CppType} {k : Special sample tap}
    (s : IppFirState ipp k) where
  open num use {Value}

  abbrev len : ℕ
  len = delay_len s

  -- What a call needs of its sizes and of its two buffers.
  pub record IsCallable (input output : ℕ) : Type 0 where
    pub blocks : s.batch * s.block_size < size_mod
    pub delays : s.batch * len < size_mod
    pub size : s.delay_a.size ≡ s.batch * len
    pub apart : Disjoint input (s.batch * s.block_size) output (s.batch * s.block_size)

  -- The rounds of the loop keep an invariant whose rounds succeed, and then the loop does.
  ipp_rounds_inv :
      (P : ℕ → Work ipp k → Type 0) (input output stop n i : ℕ) (w : Work ipp k)
      → n + i ≡ stop
      → ((b : ℕ) (v : Work ipp k)
          → b < stop
          → P b v
          → (map_status (ipp_round s input output b v).0 ≡ Status.ok)
            × P (suc b) (ipp_round s input output b v).1)
      → P i w
      → ((ipp_rounds s n input output i w).0 ≡ Status.ok)
        × P stop (ipp_rounds s n input output i w).1
  unfolding ipp_rounds
  ipp_rounds_inv P input output stop zero i w e keep p =
      let same : i ≡ stop = omega arith in (refl, subst (λ k. P k w) same p)
  ipp_rounds_inv P input output stop (suc n) i w e keep p =
      let (fine, next) = keep i w (omega arith) p in
      let rest = ipp_rounds_inv P input output stop n (suc i) _ (omega arith) keep next in
      rw fine rest

  module _ (input output : ℕ) (callable : IsCallable input output)
      (y : (ℕ → Value sample) → ℕ → Value sample)
      (doc : IsDocumented ipp k s.spec s.block_size len y) (x : ℕ → ℕ → Value sample) (n : ℕ)
      (held : Tracks num sample s.batch len s.delay_a.at x n) where
    abbrev row : ℕ → ℕ → Value sample
    row b m = x b (n + m)

    abbrev filtered_row : ℕ → ℕ → Value sample
    filtered_row b i = y (x b) (n + i)

    abbrev Saved : ℕ → Work ipp k → Type 0
    Saved b w =
        (j : ℕ)
        → j < len
        → w.delay_b.at (b * len + j) ≡ past num sample (x b) (n + s.block_size) len j

    delay_of :
        (b : ℕ) → b < s.batch → Delays ipp k (x b) n len (ptr_or_null ipp k s.delay_a (b * len))
    delay_of b hb = elim (Bool-cases (s.delay_a.size == 0)) [
      | inl empty ↦ rw empty (ground (arith, callable.size, row-le len hb))
      | inr full ↦ rw full (λ j hj. held b j hb hj)
    ]

    -- The call of round `b`, where its offsets do not wrap.
    abbrev call : ℕ → Work ipp k → IppStatus × (ℕ → Value sample) × (ℕ → Value sample) × ipp.Buffer
    call b w =
        ipp_exec ipp k s.block_size s.spec (λ j. w.memory (input + b * s.block_size + j))
          (ptr_or_null ipp k s.delay_a (b * len)) w.work

    round_call :
        (b : ℕ) (w : Work ipp k)
        → b < s.batch
        → ipp_round s input output b w ≡ (
          (call b w).0,
          record {
            work = (call b w).3;
            delay_b = record w.delay_b { at = copy len (call b w).2 (b * len) w.delay_b.at };
            memory = copy s.block_size (call b w).1 (output + b * s.block_size) w.memory;
          },
        )
    unfolding ipp_round
    round_call b w hb =
        rw
          (
            mul_size_row b s.batch s.block_size hb callable.blocks,
            mul_size_row b s.batch len hb callable.delays,
          )
          refl

    called :
        (b : ℕ) (w : Work ipp k)
        → b < s.batch
        → ((m : ℕ) → m < s.block_size → w.memory (input + b * s.block_size + m) ≡ row b m)
        → ((call b w).0 ≡ IppStatus.no_err)
          × ((i : ℕ) → i < s.block_size → (call b w).1 i ≡ filtered_row b i)
          × ((j : ℕ) → j < len → (call b w).2 j ≡ past num sample (x b) (n + s.block_size) len j)
    called b w hb reads = doc (x b) n _ _ w.work reads (delay_of b hb)

    round-IsRound :
        IsRound
          (λ (w : Work ipp k). w.memory)
          s.batch
          input
          output
          s.block_size
          s.block_size
          (λ b w. (ipp_round s input output b w).1)
          row
          filtered_row
          (λ _ _. Unit {0})
          Saved
    round-IsRound = record {
      frame = λ b w j hb o. rw (round_call b w hb) (ground arith);
      serve = λ b w hb r reads.
          let done = called b w hb reads in
          rw (round_call b w hb) (
            (λ j hj. copy_inside s.block_size (call b w).1 _ w.memory j hj ∙ done.1 j hj),
            (λ j hj. copy_inside len (call b w).2 _ w.delay_b.at j hj ∙ done.2 j hj),
          );
      keep_ready = λ b c w h hc r. tt;
      keep_done = λ b c w h hb saved j hj.
          rw (round_call b w hb) (ground (arith, saved j hj, row-le len h));
    }

    round-ok :
        (b : ℕ) (w : Work ipp k)
        → b < s.batch
        → ((m : ℕ) → m < s.block_size → w.memory (input + b * s.block_size + m) ≡ row b m)
        → map_status (ipp_round s input output b w).0 ≡ Status.ok
    unfolding map_status
    round-ok b w hb reads = rw (round_call b w hb) (rw (called b w hb reads).0 refl)

    module _ (mem : Memory (Value sample))
        (fed : BlockOf s.batch s.block_size x n (λ j. mem (input + j))) where
      abbrev first : Work ipp k
      first = record { work = s.work; delay_b = s.delay_b; memory = mem }

      abbrev Done : ℕ → Work ipp k → Type 0
      Done =
          IsDone (λ (w : Work ipp k). w.memory) s.batch input output s.block_size s.block_size row
            filtered_row (λ _ _. Unit {0}) Saved

      rounds-Done :
          ((ipp_rounds s s.batch input output 0 first).0 ≡ Status.ok)
          × Done s.batch (ipp_rounds s s.batch input output 0 first).1
      rounds-Done =
          ipp_rounds_inv Done input output s.batch s.batch 0 first (omega arith)
            (λ b v hb done. (
              round-ok b v hb (done.reads b (omega arith) hb),
              round-IsDone _ s.batch input output s.block_size s.block_size _ row filtered_row _ _
                  round-IsRound
                  (Disjoint-IsOrdered s.batch input s.block_size output s.block_size callable.apart)
                  b v hb done,
            ))
            (record {
              wrote = λ c h. absurd (omega arith);
              done = λ c h. absurd (omega arith);
              ready = λ c lo hc. tt;
              reads = λ c lo hc j hj. rw add_assoc (fed c j hc hj);
            })

      -- Over a library that does what IPP documents, from delay lines that hold the samples before
      -- time `n`, with sizes that fit in `size_t` and buffers that do not overlap, a call succeeds,
      -- its output is the filtered signal of each channel at the times of the block, and the delay
      -- lines that the next call reads then hold the samples before the next block.
      pub ipp_execute-response :
          let (status, s', mem') = ipp_execute s input output mem in
          (status ≡ Status.ok)
          × BlockOf s.batch s.block_size (λ b. y (x b)) n (λ j. mem' (output + j))
          × Tracks num sample s.batch len s'.delay_a.at x (n + s.block_size)
      unfolding ipp_execute
      ipp_execute-response =
          let (fine, done) = rounds-Done in
          rw fine (
            refl,
            λ b i hb hi. rw (← add_assoc output (b * s.block_size) i) (done.wrote b hb i hi),
            λ b j hb hj. done.done b hb j hj,
          )
