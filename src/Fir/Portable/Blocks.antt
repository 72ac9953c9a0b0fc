-- ===== src/Fir/Portable/Blocks.antt =====
-- The block size of the portable backend is a matter of how a signal is cut, not of what is computed.
use dsp_dispatch.Base.{ℕ, ◌*◌, ◌<◌, ◌≡◌, arith, Memory, Disjoint, List, some, false}
use dsp_dispatch.Base.Cpp.{Numbers}
use dsp_dispatch.Fir.Types.{TapMemory, FirPlanConfig, of_value, invalid_common}
use dsp_dispatch.Fir.Plan.{FirPlan, create}
use dsp_dispatch.Fir.Session.{plain, session, Carries}
use dsp_dispatch.Fir.Response.{filtered}
use dsp_dispatch.Fir.Samples.{sample_at, total, Answers-same}
use dsp_dispatch.Fir.Portable.{make_backend_plan}
use dsp_dispatch.Fir.Portable.Plan.{IsSized, sample_of, tap_of, portable-Answers}

module _ {num : Numbers} (granted : ℕ → ℕ) (cfg : FirPlanConfig num) (h : TapMemory num)
    (accepted : invalid_common num cfg ≡ false) (given : cfg.taps ≡ some h) (block : ℕ) where
  abbrev pub with_block : FirPlanConfig num
  with_block = record cfg { block_size = block }

  with_block-accepted : 0 < block → invalid_common num with_block ≡ false
  unfolding invalid_common
  with_block-accepted some_block = ground (arith, accepted)

  -- A valid configuration and the same with another block size above 0, where the sizes of both fit
  -- in `size_t`, give plans whose sessions with the same signals, on buffers that do not overlap,
  -- give the same samples of every channel, as far as both sessions go.
  pub portable-block_size :
      (some_block : 0 < block)
      → IsSized cfg.tap_count cfg.block_size cfg.batch
      → IsSized cfg.tap_count block cfg.batch
      → (input output : ℕ)
      → Disjoint input (cfg.batch * cfg.block_size) output (cfg.batch * cfg.block_size)
      → Disjoint input (cfg.batch * block) output (cfg.batch * block)
      → (x : ℕ → ℕ → num.Value (sample_of cfg)) (us vs : List (ℕ → num.Value (sample_of cfg)))
        (mem mem' : Memory (num.Value (sample_of cfg)))
      → Carries cfg.batch cfg.block_size x 0 us
      → Carries cfg.batch block x 0 vs
      → (p q : FirPlan (Memory (num.Value (sample_of cfg)))) × (create
            (make_backend_plan num granted cfg)
          ≡ of_value p)
        × (create (make_backend_plan num granted with_block) ≡ of_value q)
        × ((b n : ℕ)
            → b < cfg.batch
            → n < total cfg.block_size us
            → n < total block vs
            → sample_at cfg.block_size
                (session plain p input output (cfg.batch * cfg.block_size) us mem).0
                b
                n
              ≡ sample_at block (session plain q input output (cfg.batch * block) vs mem').0 b n)
  portable-block_size some_block sized sized' input output apart apart' x us vs mem mem' carried
        carried' =
      let (p, made, answered) =
        portable-Answers granted cfg h accepted given sized input output apart x us mem carried in
      let (q, made', answered') =
        portable-Answers granted with_block h (with_block-accepted some_block) given sized' input
          output apart' x vs mem' carried' in
      (
        p,
        q,
        made,
        made',
        Answers-same cfg.batch cfg.block_size block
            (filtered num (sample_of cfg) (tap_of cfg) cfg.tap_count (h (tap_of cfg)) x) us vs _ _
            answered answered',
      )
