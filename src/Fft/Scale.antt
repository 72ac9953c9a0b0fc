-- ===== src/Fft/Scale.antt =====
-- The loops that apply 1/n to an output, which src/backends/armpl/armpl_backend.cpp and
-- src/backends/aocl/aocl_backend.cpp have in the same words: they multiply every scalar of the
-- output once, and no other.
use dsp_dispatch.Base.{
  ℕ, suc, ◌+◌, ◌*◌, ◌<◌, ◌≡◌, ◌≢◌, refl, arith, for_range, for_range_inv, size_mod, mul_size,
  mul_size_lem, Memory, store, Outside,
}
use dsp_dispatch.Fft.Types.{FftType}
use dsp_dispatch.Fft.Layout.{out_width}

module _ {A : Type 0} (mul : A → A → A) where
  -- `o[i] *= inv`, of a complex value and of a real one
  abbrev pub scale_complex : A → (output i : ℕ) → Memory A → Memory A
  scale_complex inv output i m =
      let m' = store m (output + 2 * i) (mul (m (output + 2 * i)) inv) in
      store m' (output + (2 * i + 1)) (mul (m' (output + (2 * i + 1))) inv)

  abbrev pub scale_real : A → (output i : ℕ) → Memory A → Memory A
  scale_real inv output i m = store m (output + i) (mul (m (output + i)) inv)

  -- the two loops
  unfoldable pub scale : FftType → A → (n batch output : ℕ) → Memory A → Memory A
  scale FftType.complex inv n batch output mem =
      for_range (mul_size n batch) 0 (scale_complex inv output) mem
  scale _ inv n batch output mem = for_range (mul_size n batch) 0 (scale_real inv output) mem

  module _ (output : ℕ) (mem : ℕ → A) where
    -- The first `k` scalars of the output are multiplied, and all else is as it was.
    pub record IsScaled (inv : A) (k : ℕ) (m : Memory A) : Type 0 where
      pub scaled : (j : ℕ) → j < k → m (output + j) ≡ mul (mem (output + j)) inv
      pub others : (j : ℕ) → Outside j output k → m j ≡ mem j

    scale_complex-IsScaled :
        (inv : A) (i : ℕ) (m : Memory A)
        → IsScaled inv (2 * i) m
        → IsScaled inv (2 * suc i) (scale_complex inv output i m)
    scale_complex-IsScaled inv i m d = record {
      scaled = λ j hj. ground (arith, d.scaled j, d.others (output + j));
      others = λ j o. ground (arith, d.others j);
    }

    scale_real-IsScaled :
        (inv : A) (i : ℕ) (m : Memory A)
        → IsScaled inv i m
        → IsScaled inv (suc i) (scale_real inv output i m)
    scale_real-IsScaled inv i m d = record {
      scaled = λ j hj. ground (arith, d.scaled j, d.others (output + j));
      others = λ j o. ground (arith, d.others j);
    }

    unscaled : (inv : A) → IsScaled inv 0 mem
    unscaled inv = record { scaled = λ j h. absurd (omega arith); others = λ j o. refl }

    pub complex_loop :
        (inv : A) (n : ℕ) → IsScaled inv (2 * n) (for_range n 0 (scale_complex inv output) mem)
    complex_loop inv n =
        for_range_inv (λ b m. IsScaled inv (2 * b) m) _ n n 0 mem (omega arith)
          (λ b m lo hb. scale_complex-IsScaled inv b m) (unscaled inv)

    real_loop : (inv : A) (n : ℕ) → IsScaled inv n (for_range n 0 (scale_real inv output) mem)
    real_loop inv n =
        for_range_inv (λ b m. IsScaled inv b m) _ n n 0 mem (omega arith)
          (λ b m lo hb. scale_real-IsScaled inv b m) (unscaled inv)

    -- For the types with an inverse, the loops reach every scalar of the output.
    pub scale-IsScaled :
        (t : FftType) (inv : A) (n batch : ℕ)
        → t ≢ FftType.real_to_complex
        → batch * out_width t n < size_mod
        → IsScaled inv (batch * out_width t n) (scale t inv n batch output mem)
    unfolding scale
    scale-IsScaled FftType.complex inv n batch ne h =
        let all = complex_loop inv (n * batch) in
        rw (mul_size_lem n batch (omega arith)) (record {
          scaled = λ j hj. all.scaled j (omega arith);
          others = λ j o. all.others j (omega arith);
        })
    scale-IsScaled FftType.real_to_complex inv n batch ne h = absurd (ne refl)
    scale-IsScaled FftType.complex_to_real inv n batch ne h =
        let all = real_loop inv (n * batch) in
        rw (mul_size_lem n batch (omega arith)) (record {
          scaled = λ j hj. all.scaled j (omega arith);
          others = λ j o. all.others j (omega arith);
        })
