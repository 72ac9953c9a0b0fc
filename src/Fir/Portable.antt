-- ===== src/Fir/Portable.antt =====
-- src/backends/portable/fir_backend.cpp, the in-tree direct FIR filter. A child proves each part.
pub mod Sample
pub mod Channel
pub mod Stream
pub mod Plan
pub mod Blocks
pub mod Sizes
pub mod Reads
mod Tests
use dsp_dispatch.Base.{
  ℕ, ◌+◌, ◌-◌, ltb, leb, if◌then◌else◌, ◌==◌, for_range, add_size, sub_size, mul_size, Memory,
  Vector, store, copy, assign, insert_end, none, some,
}
use dsp_dispatch.Base.Cpp.{CppType, Numbers, size_of}
use dsp_dispatch.Fir.Types.{
  Status, FirPrecision, FirType, TapMemory, FirPlanConfig, Result, of_value, of_status,
  invalid_common,
}
use dsp_dispatch.Fir.Plan.{BackendPlan}

-- `PortableState<Sample, Tap>`
pub record PortableState (num : Numbers) (sample tap : CppType) : Type 0 where
  pub block_size : ℕ
  pub batch : ℕ
  pub tap_count : ℕ
  pub taps : Vector (num.Value tap)
  pub history : Vector (num.Value sample)
  pub combined : Vector (num.Value sample)
  -- `combined.capacity()`
  pub combined_capacity : ℕ

-- `tap_count > 0 ? tap_count - 1 : 0`
abbrev pub history_len_of : ℕ → ℕ
history_len_of tap_count = if ltb 0 tap_count then tap_count - 1 else 0

-- What one round of the channel loop changes: two vectors of the state, and the memory.
pub record Work {ℓ} (A : Type ℓ) : Type ℓ where
  pub history : Vector A
  pub combined : Vector A
  pub memory : Memory A

-- `granted n` is the capacity that `reserve(n)` gives an empty vector.
module _ (num : Numbers) (granted : ℕ → ℕ) (sample tap : CppType) where
  open num use {Value}

  -- The constructor; `in_taps` is the pointer to the taps.
  unfoldable pub portable_state : FirPlanConfig num → TapMemory num → PortableState num sample tap
  portable_state cfg in_taps = record {
    block_size = cfg.block_size;
    batch = cfg.batch;
    tap_count = cfg.tap_count;
    taps = record { size = cfg.tap_count; at = in_taps tap };
    history = assign (mul_size cfg.batch (history_len_of cfg.tap_count)) (num.zero sample);
    combined = record { size = 0; at = λ _. num.zero sample };
    combined_capacity = granted (add_size (history_len_of cfg.tap_count) cfg.block_size);
  }

module _ {num : Numbers} {sample tap : CppType} where
  open num use {Value}

  -- `PortableState::history_len`
  abbrev pub history_len : PortableState num sample tap → ℕ
  history_len s = history_len_of s.tap_count

  -- `portable_clear`
  unfoldable pub portable_clear :
      PortableState num sample tap → Status × PortableState num sample tap
  portable_clear s = (
    Status.ok,
    record s { history = record { size = s.history.size; at = λ _. num.zero sample } },
  )

  module _ (s : PortableState num sample tap) where
    -- `(i >= k) ? bin[i - k] : hist[hist_len + i - k]`
    unfoldable pub input_at :
        (bin hist : ℕ) → Vector (Value sample) → Memory (Value sample) → (i k : ℕ) → Value sample
    input_at bin hist history mem i k =
        if leb k i
        then mem (bin + (i - k))
        else history.at (hist + sub_size (add_size (history_len s) i) k)

    -- the loop over `k`
    unfoldable pub accumulate :
        (bin hist : ℕ) → Vector (Value sample) → Memory (Value sample) → ℕ → Value sample
    accumulate bin hist history mem i =
        for_range s.tap_count 0
          (λ k acc.
            num.add sample acc
              (num.mul sample tap (input_at bin hist history mem i k) (s.taps.at k)))
          (num.zero sample)

    -- the loop over `i`
    unfoldable pub write_block :
        (bin bout hist : ℕ) → Vector (Value sample) → Memory (Value sample) → Memory (Value sample)
    write_block bin bout hist history =
        for_range s.block_size 0 λ i mem. store mem (bout + i) (accumulate bin hist history mem i)

    -- the last lines of a round: `combined` is the history and then the block, and the last
    -- `hist_len` of its samples become the history
    unfoldable pub save_history : (bin hist : ℕ) → Work (Value sample) → Work (Value sample)
    save_history bin hist w =
        let empty : Vector (Value sample) = record { size = 0; at = w.combined.at } in
        let old : Vector (Value sample) =
          insert_end empty (history_len s) (λ j. w.history.at (hist + j)) in
        let both : Vector (Value sample) = insert_end old s.block_size (λ j. w.memory (bin + j)) in
        record w {
          combined = both;
          history = record {
            size = w.history.size;
            at =
                copy (history_len s) (λ j. both.at (both.size - history_len s + j)) hist
                  w.history.at;
          };
        }

    -- one round of the loop over `b`
    unfoldable pub channel : (input output b : ℕ) → Work (Value sample) → Work (Value sample)
    channel input output b w =
        let bin = input + mul_size b s.block_size in
        let bout = output + mul_size b s.block_size in
        let hist = mul_size b (history_len s) in
        let written : Work (Value sample) = record w {
          memory = write_block bin bout hist w.history w.memory;
        } in
        if history_len s == 0 then written else save_history bin hist written

  -- `portable_execute`
  unfoldable pub portable_execute :
      PortableState num sample tap
      → (input output : ℕ) → Memory (Value sample)
      → Status × PortableState num sample tap × Memory (Value sample)
  portable_execute s input output mem =
      let start : Work (Value sample) = record {
        history = s.history;
        combined = s.combined;
        memory = mem;
      } in
      let w = for_range s.batch 0 (channel s input output) start in
      (Status.ok, record s { history = w.history; combined = w.combined }, w.memory)

  -- `portable_destroy`. It frees the state, which no caller's buffer is part of.
  unfoldable pub portable_destroy :
      PortableState num sample tap → Memory (Value sample) → Memory (Value sample)
  portable_destroy s mem = mem

module _ (num : Numbers) (granted : ℕ → ℕ) where
  -- `make_typed<Sample, Tap>`
  unfoldable pub make_typed :
      (sample tap : CppType)
      → FirPlanConfig num
      → TapMemory num
      → BackendPlan (Memory (num.Value sample))
  make_typed sample tap cfg in_taps =
      let s = portable_state num granted sample tap cfg in_taps in
      record {
        State = PortableState num sample tap;
        state = s;
        execute = portable_execute;
        clear = portable_clear;
        destroy = portable_destroy;
        workspace_bytes =
            add_size
              (add_size (mul_size s.history.size (size_of sample))
                (mul_size s.combined_capacity (size_of sample)))
              (mul_size s.taps.size (size_of tap));
        name = "portable";
      }

-- The template arguments that the nested switch of `make_backend_plan` chooses.
abbrev pub sample_type : FirPrecision → FirType → CppType
sample_type FirPrecision.f32 FirType.real = CppType.float
sample_type FirPrecision.f32 _ = CppType.complex_float
sample_type FirPrecision.f64 FirType.real = CppType.double
sample_type FirPrecision.f64 _ = CppType.complex_double

abbrev pub tap_type : FirPrecision → FirType → CppType
tap_type FirPrecision.f32 FirType.complex = CppType.complex_float
tap_type FirPrecision.f32 _ = CppType.float
tap_type FirPrecision.f64 FirType.complex = CppType.complex_double
tap_type FirPrecision.f64 _ = CppType.double

module _ (num : Numbers) (granted : ℕ → ℕ) where
  -- `make_backend_plan`. A null pointer has been refused before the taps are read.
  unfoldable pub make_backend_plan :
      (cfg : FirPlanConfig num)
      → Result (BackendPlan (Memory (num.Value (sample_type cfg.precision cfg.type))))
  make_backend_plan cfg =
      if invalid_common num cfg then of_status Status.invalid_argument else elim cfg.taps [
        | none ↦ of_status Status.invalid_argument
        | some in_taps ↦ of_value (
            make_typed num granted (sample_type cfg.precision cfg.type)
              (tap_type cfg.precision cfg.type) cfg in_taps)
      ]
