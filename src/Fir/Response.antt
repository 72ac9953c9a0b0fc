-- ===== src/Fir/Response.antt =====
-- What a FIR filter promises: y[n] = Σ x[n - k] · h[k] over the taps, the signal being zero before
-- its first sample. The sum is taken from k = 0 upwards, as a left-to-right sum.
use dsp_dispatch.Base.{ℕ, zero, suc, ◌+◌, ◌-◌, ◌*◌, ◌<◌, ◌≡◌, leb, if◌then◌else◌}
use dsp_dispatch.Base.Cpp.{CppType, Numbers}

module _ (num : Numbers) (sample tap : CppType) where
  open num use {Value, add, mul}

  -- the sum of the first `n` products
  unfoldable pub dot : ℕ → (ℕ → Value sample) → (ℕ → Value tap) → Value sample
  dot zero x h = num.zero sample
  dot (suc n) x h = add sample (dot n x h) (mul sample tap (x n) (h n))

module _ (num : Numbers) (sample : CppType) where
  open num use {Value}

  -- The sample `k` steps before time `n`.
  abbrev pub delayed : (ℕ → Value sample) → ℕ → ℕ → Value sample
  delayed x n k = if leb k n then x (n - k) else num.zero sample

  -- Entry `j` of the `len` samples that come before time `n`, oldest first.
  abbrev pub past : (ℕ → Value sample) → ℕ → ℕ → ℕ → Value sample
  past x n len j = if leb len (n + j) then x (n + j - len) else num.zero sample

module _ (num : Numbers) (sample tap : CppType) where
  open num use {Value}

  -- The filter with `count` taps `h`, at time `n` of the signal `x`.
  abbrev pub response : ℕ → (ℕ → Value tap) → (ℕ → Value sample) → ℕ → Value sample
  response count h x n = dot num sample tap count (delayed num sample x n) h

  -- The same, of every channel.
  abbrev pub filtered : ℕ → (ℕ → Value tap) → (ℕ → ℕ → Value sample) → ℕ → ℕ → Value sample
  filtered count h x b = response count h (x b)

-- The flat block `u` of a call, `batch` rows of `block` samples, holds the signals `x` from time `n`.
abbrev pub BlockOf : {A : Type 0} (batch block : ℕ) → (ℕ → ℕ → A) → ℕ → (ℕ → A) → Type 0
BlockOf batch block x n u = (b i : ℕ) → b < batch → i < block → u (b * block + i) ≡ x b (n + i)

-- The flat delay lines of the channels, `len` samples each, hold what comes before time `n`.
abbrev pub Tracks :
    (num : Numbers) (sample : CppType) (batch len : ℕ)
    → (ℕ → num.Value sample)
    → (ℕ → ℕ → num.Value sample)
    → ℕ
    → Type 0
Tracks num sample batch len history x n =
    (b j : ℕ) → b < batch → j < len → history (b * len + j) ≡ past num sample (x b) n len j
