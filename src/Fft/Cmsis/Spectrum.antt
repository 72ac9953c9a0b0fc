-- ===== src/Fft/Cmsis/Spectrum.antt =====
-- The two layouts of a real spectrum. CMSIS packs {DC, Nyquist, re 1, im 1, ...} into N values; the
-- public layout has N/2 + 1 bins of a real and an imaginary part.
use dsp_dispatch.Base.{
  ℕ, ◌+◌, ◌-◌, ◌*◌, ◌/◌, ◌%◌, ◌≤◌, ◌<◌, ◌≡◌, ◌≢◌, arith, if◌then◌else◌, ◌==◌, for_range_inv, Memory,
  Vector, Outside,
}
use dsp_dispatch.Fft.Cmsis.{ArmMath, CmsisFftState, half, unpack, pack}

module _ {A : Type 0} where
  -- Real part of bin `k` of a packed spectrum with `h + 1` bins.
  abbrev pub bin_re : (h : ℕ) → (ℕ → A) → ℕ → A
  bin_re h p k = if k == 0 then p 0 else if k == h then p 1 else p (2 * k)

  -- Its imaginary part, which is zero for DC and Nyquist.
  abbrev pub bin_im : A → (h : ℕ) → (ℕ → A) → ℕ → A
  bin_im zero h p k = if k == 0 then zero else if k == h then zero else p (2 * k + 1)

  -- The packed form of the public layout: the imaginary parts of DC and Nyquist are not read.
  abbrev pub packed_of : (h : ℕ) → (ℕ → A) → ℕ → A
  packed_of h u j = if j == 0 then u 0 else if j == 1 then u (2 * h) else u j

  -- The two parts of each bin, side by side.
  abbrev pub interleave : (ℕ → A) → (ℕ → A) → ℕ → A
  interleave re im j = if j % 2 == 0 then re (j / 2) else im (j / 2)

  -- The public layout of a packed spectrum.
  abbrev pub public_of : A → (h : ℕ) → (ℕ → A) → ℕ → A
  public_of zero h p = interleave (bin_re h p) (bin_im zero h p)

  pub public_even :
      (zero : A) (h : ℕ) (p : ℕ → A) (k : ℕ) → public_of zero h p (2 * k) ≡ bin_re h p k
  public_even zero h p k =
      let q : 2 * k / 2 ≡ k = omega arith in let r : 2 * k % 2 ≡ 0 = omega arith in rw (r, q)

  pub public_odd :
      (zero : A) (h : ℕ) (p : ℕ → A) (k : ℕ) → public_of zero h p (2 * k + 1) ≡ bin_im zero h p k
  public_odd zero h p k =
      let q : (2 * k + 1) / 2 ≡ k = omega arith in
      let r : (2 * k + 1) % 2 ≡ 1 = omega arith in rw (r, q)

  -- It depends on the packed values only.
  pub public_congr :
      (zero : A) (h : ℕ) (p q : ℕ → A)
      → 0 < h
      → ((i : ℕ) → i < 2 * h → p i ≡ q i)
      → (j : ℕ) → j < 2 * (h + 1)
      → public_of zero h p j ≡ public_of zero h q j
  public_congr zero h p q pos same j hj =
      ground (arith, same 0, same 1, same (2 * (j / 2)), same (2 * (j / 2) + 1))

  pub packed_congr :
      (h : ℕ) (u v : ℕ → A)
      → 0 < h
      → ((j : ℕ) → j < 2 * (h + 1) → j ≢ 1 → j ≢ 2 * h + 1 → u j ≡ v j)
      → (j : ℕ) → j < 2 * h
      → packed_of h u j ≡ packed_of h v j
  packed_congr h u v pos same j hj = ground (arith, same 0, same (2 * h), same j)

  -- Packing undoes unpacking.
  pub packed-public :
      (zero : A) (h : ℕ) (p : ℕ → A) (j : ℕ)
      → 0 < h
      → j < 2 * h
      → packed_of h (public_of zero h p) j ≡ p j
  packed-public zero h p j pos hj = ground arith

module _ {arm : ArmMath} (s : CmsisFftState arm) (pos : 0 < half s) where
  open arm use {Float}

  record IsUnpacked (bout : ℕ) (p : ℕ → Float) (mem : Memory Float) (k : ℕ) (m : Memory Float)
      : Type 0 where
    re : (i : ℕ) → i < k → m (bout + 2 * i) ≡ bin_re (half s) p i
    im : (i : ℕ) → i < k → m (bout + (2 * i + 1)) ≡ bin_im arm.zero (half s) p i
    nyquist_re : m (bout + 2 * half s) ≡ p 1
    nyquist_im : m (bout + (2 * half s + 1)) ≡ arm.zero
    others : (j : ℕ) → Outside j bout (2 * (half s + 1)) → m j ≡ mem j

  unpack-IsUnpacked :
      (bout : ℕ) (p : ℕ → Float) (mem : Memory Float)
      → IsUnpacked bout p mem (half s) (unpack s bout p mem)
  unfolding unpack
  unpack-IsUnpacked bout p mem =
      for_range_inv (IsUnpacked bout p mem) _ (half s) (half s - 1) 1 _ (omega arith)
        (λ k m lo hi u. record {
          re = λ i hk. ground (arith, u.re i);
          im = λ i hk. ground (arith, u.im i);
          nyquist_re = ground (arith, u.nyquist_re);
          nyquist_im = ground (arith, u.nyquist_im);
          others = λ j o. ground (arith, u.others j o);
        })
        (record {
          re = λ i hk. ground arith;
          im = λ i hk. ground arith;
          nyquist_re = ground arith;
          nyquist_im = ground arith;
          others = λ j o. ground arith;
        })

  -- Every bin is written, and nothing else.
  pub unpack-re :
      (bout : ℕ) (p : ℕ → Float) (mem : Memory Float) (k : ℕ)
      → k ≤ half s
      → unpack s bout p mem (bout + 2 * k) ≡ bin_re (half s) p k
  unpack-re bout p mem k h =
      let u = unpack-IsUnpacked bout p mem in ground (arith, u.re k, u.nyquist_re)

  pub unpack-im :
      (bout : ℕ) (p : ℕ → Float) (mem : Memory Float) (k : ℕ)
      → k ≤ half s
      → unpack s bout p mem (bout + (2 * k + 1)) ≡ bin_im arm.zero (half s) p k
  unpack-im bout p mem k h =
      let u = unpack-IsUnpacked bout p mem in ground (arith, u.im k, u.nyquist_im)

  pub unpack_frame :
      (bout : ℕ) (p : ℕ → Float) (mem : Memory Float) (j : ℕ)
      → Outside j bout (2 * (half s + 1))
      → unpack s bout p mem j ≡ mem j
  unpack_frame bout p mem j o = (unpack-IsUnpacked bout p mem).others j o

  -- The packed buffer is the packed form of the row that was read.
  pub pack_lem :
      (bin : ℕ) (mem : Memory Float) (a : Vector Float) (j : ℕ)
      → j < 2 * half s
      → (pack s bin mem a).at j ≡ packed_of (half s) (λ i. mem (bin + i)) j
  unfolding pack
  pack_lem bin mem a j h =
      for_range_inv
        (λ k (v : Vector Float).
          (i : ℕ) → i < 2 * k → v.at i ≡ packed_of (half s) (λ m. mem (bin + m)) i)
        _ (half s) (half s - 1) 1 _ (omega arith) (λ k v lo hi p i hik. ground (arith, p i))
        (λ i hi. ground arith) j h

  pub unpack_lem :
      (bout : ℕ) (p : ℕ → Float) (mem : Memory Float) (j : ℕ)
      → j < 2 * (half s + 1)
      → unpack s bout p mem (bout + j) ≡ public_of arm.zero (half s) p j
  unpack_lem bout p mem j h =
      ground (arith, unpack-re bout p mem (j / 2), unpack-im bout p mem (j / 2))
