-- ===== src/Fft/Aocl/Execute.antt =====
-- `aocl_execute` on a state with its handle, over a library that does what AOCL-FFTZ documents.
use dsp_dispatch.Base.{
  ℕ, ◌+◌, ◌*◌, ◌/◌, ◌^◌, ◌<◌, ◌≤◌, ◌≡◌, ◌≢◌, refl, sym, ap, ◌∙◌, fun_ext, arith, size_mod, Memory,
  Disjoint, Bool, true, false, some, if◌then◌else◌, row-le,
}
use dsp_dispatch.Base.Int.{to_int, to_int_lem}
use dsp_dispatch.Base.Machine.{Machine}
use dsp_dispatch.Fft.Types.{Status, FftType, FftDirection}
use dsp_dispatch.Fft.Layout.{in_side, out_side, in_width, out_width, Serves, unit}
use dsp_dispatch.Fft.Direction.{inverts, not_real}
use dsp_dispatch.Fft.Scale.{scale, scale-IsScaled}
use dsp_dispatch.Fft.Aocl.{
  Fftz, AoclState, Desc, aocl_execute, reciprocal, in_dist, out_dist, describe, is_real,
}

module _ (fftz : Fftz) where
  open fftz use {Float}

  -- A library's transform of a row, for each type, direction and length.
  abbrev pub Spectrum : Type 0
  Spectrum = FftType → (inverse : Bool) → ℕ → (ℕ → Float) → ℕ → Float

  -- The problem of a type: of unit strides, with these numbers and distances.
  abbrev pub problem : FftType → (inverse : Bool) → (n howmany di do' : ℕ) → Desc
  problem t inverse n howmany di do' = record {
    dims = record { n = n; in_stride = 1; out_stride = 1 };
    vecs = record { n = howmany; in_stride = di; out_stride = do' };
    real = is_real t;
    inverse = inverse;
  }

  -- What AOCL-FFTZ documents of the handles it sets up for two buffers: where the numbers are
  -- positive as INT32, neither the rows of the input nor those of the output overlap, and the two
  -- buffers, of all their rows, are apart, a run on them succeeds, and transforms every row, the rows
  -- of a buffer being a distance apart.
  abbrev pub IsDocumented : Spectrum → Type 0
  IsDocumented f =
      (t : FftType) (d : FftDirection) (n howmany di do' : ℕ) (h : fftz.Handle) (input output : ℕ)
      (mem : Memory Float)
      → fftz.setup (problem t (inverts t d) n howmany di do') ≡ some h
      → 0 < n
      → n < 2 ^ 31
      → 0 < howmany
      → howmany < 2 ^ 31
      → di < 2 ^ 31
      → do' < 2 ^ 31
      → in_width t n ≤ di * unit (in_side t)
      → out_width t n ≤ do' * unit (out_side t)
      → Disjoint input (howmany * di * unit (in_side t)) output (howmany * do' * unit (out_side t))
      → let (returned, mem') = fftz.execute_io h input output mem in
        (returned ≡ true)
        × ((b j : ℕ)
            → b < howmany
            → j < out_width t n
            → mem' (output + b * do' * unit (out_side t) + j)
              ≡ f t (inverts t d) n (λ i. mem (input + b * di * unit (in_side t) + i)) j)

  -- What the public contract makes of it: 1/n on the inverse directions.
  abbrev pub normalized : Spectrum → Spectrum
  normalized f t inverse n row j =
      if inverse then fftz.mul (f t inverse n row j) (reciprocal fftz n) else f t inverse n row j

in_row :
    (t : FftType) (n b : ℕ)
    → n < 2 ^ 31
    → b * to_int (in_dist t n) * unit (in_side t) ≡ b * in_width t n
in_row FftType.complex n b h = rw (to_int_lem n h) (omega arith)
in_row FftType.real_to_complex n b h = rw (to_int_lem n h) (omega arith)
in_row FftType.complex_to_real n b h = rw (to_int_lem (n / 2 + 1) (omega arith)) (omega arith)

out_row :
    (t : FftType) (n b : ℕ)
    → n < 2 ^ 31
    → b * to_int (out_dist t n) * unit (out_side t) ≡ b * out_width t n
out_row FftType.complex n b h = rw (to_int_lem n h) (omega arith)
out_row FftType.real_to_complex n b h = rw (to_int_lem (n / 2 + 1) (omega arith)) (omega arith)
out_row FftType.complex_to_real n b h = rw (to_int_lem n h) (omega arith)

dist_lt :
    (t : FftType) (n : ℕ)
    → 0 < n
    → n < 2 ^ 31
    → (to_int (in_dist t n) < 2 ^ 31) × (to_int (out_dist t n) < 2 ^ 31)
dist_lt FftType.complex n h l = omega arith
dist_lt FftType.real_to_complex n h l = omega arith
dist_lt FftType.complex_to_real n h l = omega arith

module _ (fftz : Fftz) (f : Spectrum fftz) (doc : IsDocumented fftz f) where
  open fftz use {Float}

  -- A run of the handle for `batch` transforms of `n` values serves the caller, unscaled.
  execute_io-Serves :
      (t : FftType) (d : FftDirection) (n batch : ℕ) (h : fftz.Handle) (input output : ℕ)
      (mem : Memory Float)
      → fftz.setup (describe t (inverts t d) n batch) ≡ some h
      → 0 < n
      → n < 2 ^ 31
      → 0 < batch
      → batch < 2 ^ 31
      → Disjoint input (batch * in_width t n) output (batch * out_width t n)
      → ((fftz.execute_io h input output mem).0 ≡ true)
        × Serves 1 batch
            (in_width t n)
            (out_width t n)
            (f t (inverts t d) n)
            input
            output
            mem
            (fftz.execute_io h input output mem).1
  unfolding describe
  execute_io-Serves t d n batch h input output mem made hn ln hb lb apart = (
    done.0,
    λ b j hj hw.
        ap (fftz.execute_io h input output mem).1 (at_out b j)
        ∙ done.1 b j hj hw
        ∙ ap (λ row. f t (inverts t d) n row j) (fun_ext (λ i. ap mem (at_in b i))),
  )
    where
      planned :
          fftz.setup
            (problem fftz t (inverts t d) n batch (to_int (in_dist t n)) (to_int (out_dist t n)))
          ≡ some h
      planned =
          ap
            (λ m.
              fftz.setup (
                problem fftz t (inverts t d) m batch (to_int (in_dist t n))
                  (to_int (out_dist t n))))
            (sym (to_int_lem n ln))
          ∙ ap
              (λ m. fftz.setup (
                problem fftz t (inverts t d) (to_int n) m (to_int (in_dist t n))
                  (to_int (out_dist t n))))
              (sym (to_int_lem batch lb))
          ∙ made

      done :
          ((fftz.execute_io h input output mem).0 ≡ true)
          × ((b j : ℕ)
              → b < batch
              → j < out_width t n
              → (fftz.execute_io h input output mem).1
                  (output + b * to_int (out_dist t n) * unit (out_side t) + j)
                ≡ f t
                    (inverts t d)
                    n
                    (λ i. mem (input + b * to_int (in_dist t n) * unit (in_side t) + i))
                    j)
      done =
          doc t d n batch (to_int (in_dist t n)) (to_int (out_dist t n)) h input output mem planned
            hn ln hb lb (dist_lt t n hn ln).0 (dist_lt t n hn ln).1 (omega (arith, in_row t n 1 ln))
            (omega (arith, out_row t n 1 ln)) (rw (in_row t n batch ln, out_row t n batch ln) apart)

      at_out :
          (b j : ℕ)
          → output + (b * out_width t n + j) * 1
            ≡ output + b * to_int (out_dist t n) * unit (out_side t) + j
      at_out b j = omega (arith, out_row t n b ln)

      at_in :
          (b i : ℕ)
          → input + b * to_int (in_dist t n) * unit (in_side t) + i
            ≡ input + (b * in_width t n + i) * 1
      at_in b i = omega (arith, in_row t n b ln)

  normalized-Serves :
      (t : FftType) (inverse : Bool) (n batch input output : ℕ) (mem ran : Memory Float)
      → (inverse ≡ true → t ≢ FftType.real_to_complex)
      → batch * out_width t n < size_mod
      → Serves 1 batch (in_width t n) (out_width t n) (f t inverse n) input output mem ran
      → Serves 1 batch
          (in_width t n)
          (out_width t n)
          (normalized fftz f t inverse n)
          input
          output
          mem
          (if inverse then scale fftz.mul t (reciprocal fftz n) n batch output ran else ran)
  normalized-Serves t true n batch input output mem ran real fits served = λ b j hb hj.
      (scale-IsScaled fftz.mul output ran t (reciprocal fftz n) n batch (real refl) fits).scaled
        ((b * out_width t n + j) * 1) (omega (arith, row-le (out_width t n) hb))
      ∙ ap (λ v. fftz.mul v (reciprocal fftz n)) (served b j hb hj)
  normalized-Serves t false n batch input output mem ran real fits served = served

  -- Over a library that does what AOCL-FFTZ documents, on buffers that are apart and with sizes that
  -- fit in INT32 and `size_t`, a call with the handle that was set up for the type, the direction and
  -- the sizes of the state succeeds, changes neither the state nor what is live, and serves the
  -- caller with the transform, times 1/n where it is an inverse one.
  pub aocl_execute-Serves :
      (t : FftType) (d : FftDirection) (s : AoclState fftz) (h : fftz.Handle) (input output : ℕ)
      (m : Machine Float)
      → s.type ≡ t
      → s.inverse ≡ inverts t d
      → s.handle ≡ some h
      → fftz.setup (describe t (inverts t d) s.n s.batch) ≡ some h
      → 0 < s.n
      → s.n < 2 ^ 31
      → 0 < s.batch
      → s.batch < 2 ^ 31
      → s.batch * out_width t s.n < size_mod
      → Disjoint input (s.batch * in_width t s.n) output (s.batch * out_width t s.n)
      → let (status, s', m') = aocl_execute fftz s input output m in
        (status ≡ Status.ok)
        × (s' ≡ s)
        × (m'.live ≡ m.live)
        × Serves 1 s.batch
            (in_width t s.n)
            (out_width t s.n)
            (normalized fftz f t (inverts t d) s.n)
            input
            output
            m.memory
            m'.memory
  unfolding aocl_execute
  aocl_execute-Serves t d s h input output m et ei eh made hn ln hb lb fits apart =
      let (fine, served) =
        execute_io-Serves t d s.n s.batch h input output m.memory made hn ln hb lb apart in
      rw (eh, et, ei)
        (rw fine (
          refl,
          refl,
          refl,
          normalized-Serves t (inverts t d) s.n s.batch input output m.memory _ (not_real t d) fits
              served,
        ))
