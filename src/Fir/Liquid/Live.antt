-- ===== src/Fir/Liquid/Live.antt =====
-- The liquid-dsp objects that the backend creates and destroys, and the status of a creation.
use dsp_dispatch.Base.{
  ℕ, suc, ◌+◌, ◌-◌, ◌^◌, ◌≡◌, refl, arith, for_range, for_range_inv, ltb, if◌then◌else◌, some, none,
  Memory,
}
use dsp_dispatch.Base.Machine.{Machine}
use dsp_dispatch.Base.Cpp.{Numbers}
use dsp_dispatch.Fir.Types.{Status, FirPlanConfig, TapMemory, invalid_common, is_ok}
use dsp_dispatch.Fir.Plan.{create, destroy}
use dsp_dispatch.Fir.Bank.{Filter}
use dsp_dispatch.Base.Int.{to_uint}
use dsp_dispatch.Fir.Bank.Stream.{size-new_filters}
use dsp_dispatch.Fir.Liquid.{
  Liquid, sample_of, tap_of, filter_of, is_f32, new_state, typed_plan, typed_plan_lem,
  liquid_destroy, make_typed, make_backend_plan,
}

counted_up : (n live : ℕ) → for_range n 0 (λ i l. suc l) live ≡ n + live
counted_up n live =
    for_range_inv (λ k l. l ≡ k + live) (λ i l. suc l) n n 0 live (omega arith)
      (λ k t lo hk e. omega arith) (omega arith)

counted_down : (n live : ℕ) → for_range n 0 (λ i l. l - 1) (n + live) ≡ live
counted_down n live =
    let e =
      for_range_inv (λ k l. l + k ≡ n + live) (λ i l. l - 1) n n 0 (n + live) (omega arith)
        (λ k t lo hk e. omega arith) (omega arith) in
    omega arith

-- The destruction of a new state destroys as many objects as its creation made.
destroy-new_state :
    {A T : Type 0} (filter : Filter A T) (block batch tap_count live : ℕ) (taps : ℕ → T)
    (m : Machine A)
    → m.live ≡ batch + live
    → (liquid_destroy filter (new_state filter block batch tap_count taps) m).live ≡ live
unfolding liquid_destroy new_state
destroy-new_state filter block batch tap_count live taps m e =
    rw (size-new_filters filter batch taps (to_uint tap_count), e) (counted_down batch live)

module _ {num : Numbers} (liquid : Liquid num) (cfg : FirPlanConfig num) where
  abbrev pub expected : Status
  expected =
      if invalid_common num cfg
      then Status.invalid_argument
      else if is_f32 cfg.precision
      then (if ltb cfg.tap_count (2 ^ 32)
          then (if ltb cfg.block_size (2 ^ 32) then Status.ok else Status.invalid_argument)
          else Status.invalid_argument)
      else Status.unsupported_config

  -- Creation fails with InvalidArgument for null taps or a count of 0; else with UnsupportedConfig
  -- for F64; else with InvalidArgument for counts above the range of `unsigned int`; and creates no
  -- object then. Otherwise it succeeds, and one more object is live for each channel.
  pub liquid-create_live :
      (live : ℕ)
      → let (backend, live') = make_backend_plan liquid cfg live in
        ((create backend).status ≡ expected)
        × (live' ≡ (if is_ok expected then cfg.batch + live else live))
  unfolding create make_backend_plan make_typed invalid_common
  liquid-create_live live = ground (arith, counted_up cfg.batch live)

  -- How many objects are live when the plan, where creation gave one, has been destroyed.
  abbrev pub live_after : Memory (num.Value (sample_of cfg.type)) → ℕ → ℕ
  live_after mem live =
      let (backend, live') = make_backend_plan liquid cfg live in
      elim (create backend).value [
        | none ↦ live'
        | some p ↦ (destroy p (record { memory = mem; live = live' })).live
      ]

  destroy-typed_plan :
      (h : TapMemory num) (live : ℕ) (m : Machine (num.Value (sample_of cfg.type)))
      → m.live ≡ cfg.batch + live
      → (let p = typed_plan liquid cfg.type cfg h in (p.destroy p.state m).live) ≡ live
  destroy-typed_plan h live m e = rw (typed_plan_lem liquid cfg.type cfg h) (
      destroy-new_state (filter_of liquid cfg.type) cfg.block_size cfg.batch cfg.tap_count live
        (h (tap_of cfg.type)) m e)

  -- A creation and, where it gave a plan, its destruction leave as many objects live as there were
  -- before, on every path.
  pub liquid-destroy_live :
      (mem : Memory (num.Value (sample_of cfg.type))) (live : ℕ) → live_after mem live ≡ live
  unfolding create make_backend_plan make_typed destroy
  liquid-destroy_live mem live =
      elim cfg.taps as (λ o. cfg.taps ≡ o → live_after mem live ≡ live) [
        | none ↦ λ e. ground (arith, e)
        | some h ↦ λ e. ground (
          arith,
          e,
          destroy-typed_plan h live
              (record { memory = mem; live = for_range cfg.batch 0 (λ i l. suc l) live })
              (counted_up cfg.batch live),
        )
      ]
        refl
