-- ===== src/Fft/Cmsis/Local.antt =====
-- What the documentation of a transform of `n` values says of its buffers.
use dsp_dispatch.Base.{ℕ, ◌<◌, ◌≡◌}

-- The first `n` values of the result depend on the first `n` values of the argument only.
abbrev pub IsLocal {ℓ} : {A : Type ℓ} → ℕ → ((ℕ → A) → ℕ → A) → Type ℓ
IsLocal {A} n f = (u v : ℕ → A) → ((j : ℕ) → j < n → u j ≡ v j) → (j : ℕ) → j < n → f u j ≡ f v j
