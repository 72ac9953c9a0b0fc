-- ===== src/Fir/Portable/Sizes.antt =====
-- The sizes of the vectors of `PortableState`: what a plan allocates is enough for every call.
use dsp_dispatch.Base.{
  ℕ, ◌+◌, ◌*◌, ◌≤◌, ◌≡◌, refl, ◌∙◌, arith, for_range_inv, mul_size_lem, add_size, add_size_lem,
  Memory, if◌then◌else◌,
}
use dsp_dispatch.Base.Cpp.{CppType, Numbers}
use dsp_dispatch.Fir.Types.{Status, TapMemory, FirPlanConfig, invalid_common, is_null}
use dsp_dispatch.Fir.Plan.{create}
use dsp_dispatch.Fir.Portable.{
  PortableState, Work, history_len, history_len_of, portable_state, portable_execute, channel,
  save_history, make_backend_plan,
}
use dsp_dispatch.Fir.Portable.Plan.{IsSized}

module _ {num : Numbers} {sample tap : CppType} where
  -- The vectors of a state are as large as its calls need.
  pub record IsAllocated (s : PortableState num sample tap) : Type 0 where
    pub history_size : s.history.size ≡ s.batch * history_len s
    pub combined_fits : s.combined.size ≤ s.combined_capacity
    pub capacity : history_len s + s.block_size ≤ s.combined_capacity

  -- A new state is, if its sizes fit in `size_t` and `reserve` grants at least what it is asked for.
  pub portable_state-IsAllocated :
      (granted : ℕ → ℕ) (cfg : FirPlanConfig num) (h : TapMemory num)
      → ((n : ℕ) → n ≤ granted n)
      → IsSized cfg.tap_count cfg.block_size cfg.batch
      → IsAllocated (portable_state num granted sample tap cfg h)
  unfolding portable_state
  portable_state-IsAllocated granted cfg h enough sized =
      let sum =
        add_size_lem (history_len_of cfg.tap_count) cfg.block_size (ground (arith, sized.fits)) in
      record {
        history_size = mul_size_lem cfg.batch (history_len_of cfg.tap_count) sized.histories;
        combined_fits = omega arith;
        capacity =
            omega (arith, sum, enough (add_size (history_len_of cfg.tap_count) cfg.block_size));
      }

  -- A call on a state whose vectors have the sizes of its creation, and whose `combined` has not
  -- outgrown what was reserved, leaves such a state: a call allocates nothing.
  pub portable_execute-IsAllocated :
      (s : PortableState num sample tap) (input output : ℕ) (mem : Memory (num.Value sample))
      → IsAllocated s
      → IsAllocated (portable_execute s input output mem).1
  unfolding portable_execute
  portable_execute-IsAllocated s input output mem v =
      let kept =
        for_range_inv
          (λ b (w : Work (num.Value sample)).
            (w.history.size ≡ s.history.size) × (w.combined.size ≤ s.combined_capacity))
          (channel s input output) s.batch s.batch 0
          (record { history = s.history; combined = s.combined; memory = mem }) (omega arith)
          (λ b w lo hb p. channel_sizes b w p) (refl, v.combined_fits) in
      record {
        history_size = kept.0 ∙ v.history_size;
        combined_fits = kept.1;
        capacity = v.capacity;
      }
    where
      channel_sizes :
          (b : ℕ) (w : Work (num.Value sample))
          → (w.history.size ≡ s.history.size) × (w.combined.size ≤ s.combined_capacity)
          → ((channel s input output b w).history.size ≡ s.history.size)
            × ((channel s input output b w).combined.size ≤ s.combined_capacity)
      channel_sizes b w p = unfold channel save_history in ground (arith, v.capacity)

module _ {num : Numbers} (granted : ℕ → ℕ) (cfg : FirPlanConfig num) where
  -- Creation is refused with InvalidArgument exactly when the taps are null or a count is zero; it
  -- succeeds in every other case, and a plan is there exactly when it succeeds.
  pub portable-create_status :
      ((create (make_backend_plan num granted cfg)).status
        ≡ (if invalid_common num cfg then Status.invalid_argument else Status.ok))
      × (is_null (create (make_backend_plan num granted cfg)).value ≡ invalid_common num cfg)
  unfolding create make_backend_plan invalid_common
  portable-create_status = ground arith
