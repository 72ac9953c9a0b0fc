-- ===== src/Bench/Percentile.antt =====
-- The percentiles of bench/bench_fft.cpp and bench/bench_fir.cpp, which declare them in the same words:
-- an entry of the sorted times.
pub mod Rank
mod Tests
use dsp_dispatch.Base.{ℕ, zero, suc, ◌-◌, Bool, if◌then◌else◌, List, [], ◌∷◌}

-- The compiler's `double`: 0, the casts from and to `std::size_t`, the product and the order of two
-- numbers, and the two levels that the statistics name.
pub record Doubles : Type 1 where
  pub Double : Type 0
  pub nought : Double
  pub of_size : ℕ → Double
  pub to_size : Double → ℕ
  pub mul : Double → Double → Double
  pub at_most : Double → Double → Bool
  pub p95 : Double
  pub p99 : Double

-- `v.size()`
unfoldable pub length : {A : Type 0} → List A → ℕ
length [] = 0
length (x ∷ l) = suc (length l)

module _ (doubles : Doubles) where
  open doubles use {Double, at_most}

  -- `std::sort`, of which only the result matters
  unfoldable pub insert : Double → List Double → List Double
  insert x [] = x ∷ []
  insert x (y ∷ l) = let rest = insert x l in if at_most x y then x ∷ y ∷ l else y ∷ rest

  unfoldable pub sort : List Double → List Double
  sort [] = []
  sort (x ∷ l) = insert x (sort l)

  -- `s[k]`. Beyond the end the source has no value; here it is 0.
  unfoldable pub entry : List Double → ℕ → Double
  entry [] k = doubles.nought
  entry (x ∷ l) zero = x
  entry (x ∷ l) (suc k) = entry l k

  -- the index of the entry
  abbrev pub rank : List Double → Double → ℕ
  rank v p = doubles.to_size (doubles.mul p (doubles.of_size (length v - 1)))

  unfoldable pub percentile : List Double → Double → Double
  percentile [] p = doubles.nought
  percentile (x ∷ l) p = entry (sort (x ∷ l)) (rank (x ∷ l) p)

  unfoldable pub stat_p95 : List Double → Double
  stat_p95 v = percentile v doubles.p95

  unfoldable pub stat_p99 : List Double → Double
  stat_p99 v = percentile v doubles.p99
