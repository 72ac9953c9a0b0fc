-- ===== src/Base/Machine.antt =====
-- A machine on which backends run: the caller's memory, and how many objects of a library are live.
use Prim.Native.Nat.{ℕ}
use dsp_dispatch.Base.Buffer.{Memory}

pub record Machine {ℓ} (A : Type ℓ) : Type ℓ where
  pub memory : Memory A
  pub live : ℕ
