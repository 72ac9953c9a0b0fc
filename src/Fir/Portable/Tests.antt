-- ===== src/Fir/Portable/Tests.antt =====
-- Runs of the portable backend, and the theorems at concrete inputs.
use dsp_dispatch.Base.{
  ℕ, Memory, ◌/◌, ◌%◌, ◌<◌, ◌≡◌, refl, arith, [], ◌∷◌, map, for_range, add_size, sub_size, mul_size,
  false, ltb, assign, if◌then◌else◌,
}
use dsp_dispatch.Base.Cpp.{CppType}
use dsp_dispatch.Fir.Types.{Status, invalid_common, of_value}
use dsp_dispatch.Fir.Response.{filtered}
use dsp_dispatch.Fir.Plan.{FirPlan, fir_plan, create, clear}
use dsp_dispatch.Fir.Session.{plain, session, Answers}
use dsp_dispatch.Fir.Examples.{
  counting, taps, config, signal, two_blocks, empty_memory, fresh_signal, fresh_block,
}
use dsp_dispatch.Fir.Portable.{
  PortableState, portable_state, portable_execute, make_backend_plan, make_typed, channel,
  write_block, accumulate, input_at, save_history,
}
use dsp_dispatch.Fir.Portable.Plan.{IsSized, portable-Answers, portable-clear-Answers}
use dsp_dispatch.Fir.Samples.{sample_at, total}
use dsp_dispatch.Fir.Portable.Blocks.{portable-block_size}
use dsp_dispatch.Fir.Portable.Stream.{execute_frame}
use dsp_dispatch.Fir.Portable.Reads.{Alike, with_vectors, portable_execute-reads}
use dsp_dispatch.Fir.Portable.Sizes.{
  IsAllocated, portable_state-IsAllocated, portable_execute-IsAllocated,
}

abbrev first : PortableState counting CppType.float CppType.float
first = portable_state counting (λ n. n) CppType.float CppType.float config taps

abbrev plan : FirPlan (Memory ℕ)
plan = fir_plan (make_typed counting (λ n. n) CppType.float CppType.float config taps)

config-IsSized : IsSized 3 2 2
config-IsSized = omega arith

config_valid : invalid_common counting config ≡ false
unfolding invalid_common
config_valid = refl

-- y = 1, 2 + 10; then 3 + 20 + 19, 4 + 30 + 38
first_channel :
    map
      (λ (r : Status × (ℕ → ℕ)). r.1 0 ∷ r.1 1 ∷ [])
      (session plain plan 0 8 4 two_blocks empty_memory).0
    ≡ (1 ∷ 12 ∷ []) ∷ (42 ∷ 72 ∷ []) ∷ []
unfolding session make_typed portable_state portable_execute channel write_block accumulate input_at
    save_history for_range add_size sub_size mul_size
first_channel = refl

portable-Answers_example :
    (p : FirPlan (Memory ℕ)) × (create (make_backend_plan counting (λ n. n) config) ≡ of_value p)
    × Answers 2 2
        (filtered counting CppType.float CppType.float 3 (taps CppType.float) signal)
        0
        two_blocks
        (session plain p 0 8 4 two_blocks empty_memory).0
portable-Answers_example =
    portable-Answers (λ n. n) config taps config_valid refl config-IsSized 0 8 (omega arith) signal
      two_blocks empty_memory (omega arith)

portable-clear-Answers_example :
    let q = (session plain plan 0 8 4 two_blocks empty_memory).1 in
    ((clear q).0 ≡ Status.ok)
    × Answers 2 2
        (filtered counting CppType.float CppType.float 3 (taps CppType.float) fresh_signal)
        0
        (fresh_block ∷ [])
        (session plain (clear q).1 0 8 4 (fresh_block ∷ []) empty_memory).0
unfolding create make_backend_plan invalid_common
portable-clear-Answers_example =
    portable-clear-Answers (λ n. n) config taps config_valid refl config-IsSized 0 8 (omega arith)
      signal fresh_signal two_blocks (fresh_block ∷ []) empty_memory empty_memory (omega arith)
      (omega arith) plan refl

execute_frame_example : (portable_execute first 0 8 empty_memory).2 7 ≡ 0
unfolding portable_state
execute_frame_example = execute_frame first 0 8 empty_memory (omega arith) 7 (omega arith)

first-IsAllocated : IsAllocated first
unfolding portable_state mul_size add_size
first-IsAllocated = omega arith

portable_state-IsAllocated_example : IsAllocated first
portable_state-IsAllocated_example =
    portable_state-IsAllocated (λ n. n) config taps (λ n. omega arith) config-IsSized

portable_execute-IsAllocated_example : IsAllocated (portable_execute first 0 8 empty_memory).1
portable_execute-IsAllocated_example =
    portable_execute-IsAllocated first 0 8 empty_memory first-IsAllocated

-- other cells beyond the four of the history, and other cells than the eight of the input
portable_execute-reads_example :
    Alike first
      (with_vectors first (λ j. if ltb j 4 then first.history.at j else 7) (assign 3 9))
      0
      8
      (λ j. j)
      (λ j. if ltb j 4 then j else 7)
unfolding portable_state mul_size
portable_execute-reads_example =
    portable_execute-reads first 0 8 (λ j. j) (omega arith) first-IsAllocated _ _ _
      (λ j h. ground arith) (λ j h. ground arith)

-- the signals of `two_blocks`, in one block of four samples
abbrev one_block : ℕ → ℕ
one_block j = signal (j / 4) (j % 4)

portable-block_size_example :
    (p q : FirPlan (Memory ℕ)) × (create (make_backend_plan counting (λ n. n) config) ≡ of_value p)
    × (create (make_backend_plan counting (λ n. n) (record config { block_size = 4 })) ≡ of_value q)
    × ((b n : ℕ)
        → b < 2
        → n < total 2 two_blocks
        → n < total 4 (one_block ∷ [])
        → sample_at 2 (session plain p 0 8 4 two_blocks empty_memory).0 b n
          ≡ sample_at 4 (session plain q 0 8 8 (one_block ∷ []) empty_memory).0 b n)
portable-block_size_example =
    portable-block_size (λ n. n) config taps config_valid refl 4 (omega arith) config-IsSized
      (omega arith) 0 8 (omega arith) (omega arith) signal two_blocks (one_block ∷ []) empty_memory
      empty_memory (omega arith) (omega arith)
