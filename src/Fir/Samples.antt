-- ===== src/Fir/Samples.antt =====
-- The samples of a session's answers as one signal of each channel, whatever the size of the blocks.
use dsp_dispatch.Base.{
  ℕ, ◌+◌, ◌-◌, ◌*◌, ◌<◌, ◌≡◌, ◌∙◌, ap, sym, arith, ltb, if◌then◌else◌, List, [], ◌∷◌, Option, none,
  some, Bool-cases, inl, inr,
}
use dsp_dispatch.Fir.Types.{Status}
use dsp_dispatch.Fir.Session.{Answers}

module _ {A : Type 0} (block : ℕ) where
  -- Sample `n` of channel `b`, where there are answers up to it.
  unfoldable pub sample_at : List (Status × (ℕ → A)) → (b n : ℕ) → Option A
  sample_at [] b n = none
  sample_at ((st, out) ∷ rest) b n =
      let later = sample_at rest b (n - block) in
      if ltb n block then some (out (b * block + n)) else later

  -- The samples of a session.
  unfoldable pub total : List (ℕ → A) → ℕ
  total [] = 0
  total (u ∷ us) = block + total us

  module _ (batch : ℕ) (y : ℕ → ℕ → A) where
    Answers-sample_at :
        (us : List (ℕ → A)) (replies : List (Status × (ℕ → A))) (start b n : ℕ)
        → Answers batch block y start us replies
        → b < batch
        → n < total us
        → sample_at replies b n ≡ some (y b (start + n))
    unfolding sample_at total
    Answers-sample_at [] [] start b n answered hb hn = absurd (omega arith)
    Answers-sample_at [] (r ∷ rs) start b n answered hb hn = absurd (omega arith)
    Answers-sample_at (u ∷ us) [] start b n answered hb hn = absurd answered
    Answers-sample_at (u ∷ us) ((st, out) ∷ rest) start b n answered hb hn =
        elim (Bool-cases (ltb n block)) [
          | inl now ↦ rw now (ap some (answered.1 b n hb (ground (arith, now))))
          | inr later ↦ rw later (
              Answers-sample_at us rest (start + block) b (n - block) answered.2 hb
                (ground (arith, later, hn))
              ∙ ap (λ k. some (y b k)) (ground (arith, later)))
        ]

-- Two sessions that are answered with the same signals, in blocks of any two sizes, have the same
-- samples, as far as both go.
pub Answers-same :
    {A : Type 0} (batch block block' : ℕ) (y : ℕ → ℕ → A) (us vs : List (ℕ → A))
    (replies replies' : List (Status × (ℕ → A)))
    → Answers batch block y 0 us replies
    → Answers batch block' y 0 vs replies'
    → (b n : ℕ) → b < batch
    → n < total block us
    → n < total block' vs
    → sample_at block replies b n ≡ sample_at block' replies' b n
Answers-same batch block block' y us vs replies replies' answered answered' b n hb hn hn' =
    Answers-sample_at block batch y us replies 0 b n answered hb hn
    ∙ sym (Answers-sample_at block' batch y vs replies' 0 b n answered' hb hn')
