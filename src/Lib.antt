-- ===== src/Lib.antt =====
-- dsp-dispatch: one interface for FIR filters and one for FFTs, each over interchangeable backends, of
-- which a build selects one. A client creates a plan from a configuration (`FirPlan::create`,
-- `FftPlan::create`); creation calls the backend's `make_backend_plan`, which validates the
-- configuration, allocates a state, and returns a record of function pointers. The plan then forwards
-- each `execute` (and `clear`, for filters) to the backend with that state and two buffers, and its
-- deleter hands the state back to the backend.
--
-- Shared helpers, in Base: the Boolean tests (Base/Tests), `for` loops with an invariant (Base/Loop),
-- `std::size_t` with its wrap-around at 2^64 and the offsets of rows (Base/Word), memory as a function
-- of addresses and `std::vector` as a size with contents (Base/Buffer), the loop over the rows of a
-- batch (Base/Rows), signed results of C calls and casts (Base/Int), a memory together with a count of
-- live objects (Base/Machine), the types and the arithmetic that a filter is a template over (Base/Cpp), lists by
-- index (Base/Lists), and `std::to_string` (Base/Decimal).
--
-- Who owns a state, in Owner: the `std::unique_ptr` of a plan, and the steps of a program with any number
-- of plans, which it creates, moves, assigns, destroys and calls (Owner); the account of the states that
-- are handed over and destroyed (Owner/Ledger, Owner/Alone), and the end of a scope (Owner/Scope).
--
-- The FIR side, in Fir:
--   Fir/Types     statuses, configurations and `Result` of include/fir/fir.h, `to_string`
--   Fir/Plan      src/common/fir_backend.h and src/common/fir.cpp: `BackendPlan`, and `FirPlan` with
--                 `create`, `execute`, `clear` and its destruction
--   Fir/Owner     the same interface with the state at an address: the constructor, the move members,
--                 `create`, `execute` and `clear` of `FirPlan`
--   Fir/Response  what a filter promises: the sum of the delayed samples times the taps, of a signal
--                 that is zero before its start
--   Fir/Session   what a client does: any number of blocks, one after the other, with their answers;
--                 what a streaming backend owes, and that it suffices for every session
--   Fir/Samples   the answers of a session as one signal of each channel
--   Fir/Portable  src/backends/portable/fir_backend.cpp: `PortableState`, `portable_execute` (a round
--                 of its loop is `channel`, of `write_block` and `save_history`), `portable_clear`,
--                 `portable_destroy`, `make_typed`, `make_backend_plan`
--   Fir/Ipp       src/backends/ipp/ipp_fir_backend.cpp: `IppFirState`, `map_status`, `exceeds_int`,
--                 `ipp_execute` with its early return, `ipp_clear`, `ipp_destroy`, creation, and the
--                 specialisations of `get_size`, `ipp_init` and `ipp_exec` for pairs of types
--   Fir/Cmsis     src/backends/cmsis/cmsis_fir_backend.cpp: the reversed taps, an instance with a slice
--                 of the state buffer for each channel, `cmsis_execute`, `cmsis_clear`, creation
--   Fir/Bank      filter objects, one for each channel, which the next two backends have
--   Fir/Liquid    src/backends/liquid/liquid_fir_backend.cpp: the three kinds of state with their
--                 functions, creation, and the live objects
--   Fir/Kfr       bench/backends/kfr/fir_kfr_backend.cpp
--   Fir/Agreement the portable backend as the reference of the other four
--   Fir/Examples  numbers, configurations and signals for the tests
--
-- The FFT side, in Fft:
--   Fft/Types     statuses, configurations and `Result` of include/fft/fft.h, and the choice of the
--                 direction that every backend makes in the same words
--   Fft/Plan      src/common/backend.h and src/common/fft.cpp
--   Fft/Owner     the same with the state at an address, and the move members of `FftPlan`
--   Fft/Layout    the public layouts, and `Serves`, what a call owes the caller
--   Fft/Scale     the loops that apply 1/n, which two backends have in the same words
--   Fft/Direction the directions that a type allows
--   Fft/Cmsis     src/backends/cmsis/cmsis_backend.cpp: the three cases of `cmsis_execute`, a round of
--                 each loop by itself, `unpack` and `pack` between the packed spectrum and the public
--                 bins, and creation
--   Fft/Pocket    src/backends/pocketfft/pocketfft_backend.cpp: the strides, `pocket_run`, creation with
--                 its warm-up run
--   Fft/Calls     calls of a plan, one after the other
--   Fft/Fftw3     the interface of fftw3.h, which ArmPL and FFTW implement
--   Fft/Armpl     src/backends/armpl/armpl_backend.cpp: planning, `armpl_execute`, `normalize_inverse`,
--                 and the live blocks and plans on every path
--   Fft/Aocl      src/backends/aocl/aocl_backend.cpp: the length test (Fft/Aocl/Length), creation,
--                 `aocl_execute`
--   Fft/Mkl       src/backends/mkl/mkl_backend.cpp: the descriptor, its settings in their order, with
--                 every error path, `mkl_execute`
--   Fft/Fftw      bench/backends/fftw/fftw_backend.cpp
--   Fft/Kfr       bench/backends/kfr/kfr_backend.cpp
--   Fft/Examples  a stand-in for an FFTW library, for the tests
--
-- The benchmarks, in Bench:
--   Bench/Percentile  `percentile`, `stat_p95` and `stat_p99` of bench/bench_fir.cpp, which
--                     bench/bench_fft.cpp declares in the same words
--   Bench/Register    what is asked of the benchmark library for a benchmark
--   Bench/Fir         `make_taps`, `run_execute` and `run_plan_create` of bench/bench_fir.cpp, and in
--                     Bench/Fir/Main what `main` registers
--   Bench/Fft         `run_execute` and `run_plan_create` of bench/bench_fft.cpp, and in Bench/Fft/Main
--                     what `main` registers
--
-- A call is a function from a state, two addresses and a machine to a status, a state and a machine. The
-- machine is the memory, and where a backend acquires what it must free also a count of that. A state
-- holds what the C++ object holds; freeing it changes no buffer of a caller.
--
-- Code that is not in the repository is a parameter: the arithmetic of floating-point and complex
-- numbers (`Numbers`, of which nothing is assumed, so that sums keep their order), the capacity that
-- `reserve` grants (`granted`), and the calls of CMSIS-DSP (`ArmMath`, `ArmFirs`), IPP (`Ipp`),
-- liquid-dsp (`Liquid`), KFR (`Filter`, `KfrLibrary`), PocketFFT (`Pocket`), fftw3.h (`Fftw`), oneMKL
-- (`Dfti`) and AOCL-FFTZ (`Fftz`). What a theorem needs of the documentation of such a call is a
-- hypothesis, `IsLocal`, `IsTransform`, `IsFiltering` or `IsDocumented`, that the tests meet with a
-- concrete stand-in. A `std::size_t` is a natural number whose sums, differences and products are
-- reduced modulo 2^64; an `int` made by a cast, a `ptrdiff_t` and a MKL_LONG are kept as their bits.
--
-- The only fuel is that of the divisions in Fft/Aocl/Length: a round divides a positive number by 2 at
-- least, so that the length, plus 1 for the last test, is enough for each of the four loops.
--
-- Not modelled: exceptions of allocation, and null filter objects, which the source does not test for;
-- the vDSP backend, which is a stub; of the benchmarks what the benchmark library does with what it is
-- given; the tests. A plan that has been moved from is not called: its function would be given a null
-- state, which no backend tests for.
pub mod Base
pub mod Owner
pub mod Fir
pub mod Fft
pub mod Bench
