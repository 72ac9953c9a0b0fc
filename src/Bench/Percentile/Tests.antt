-- ===== src/Bench/Percentile/Tests.antt =====
-- The theorem on percentiles at concrete times.
use dsp_dispatch.Base.{ℕ, ◌*◌, ◌/◌, ◌+◌, ◌<◌, ◌≤◌, ◌≡◌, refl, arith, leb, [], ◌∷◌, List}
use dsp_dispatch.Bench.Percentile.{Doubles, length, insert, sort, entry, percentile, stat_p95}
use dsp_dispatch.Bench.Percentile.Rank.{IsOrder, IsFraction, percentile-count}
use dsp_dispatch.Base.Lists.{count}

-- levels in hundredths
abbrev naturals : Doubles
naturals = record {
  Double = ℕ;
  nought = 0;
  of_size = λ n. n;
  to_size = λ x. x;
  mul = λ p x. p * x / 100;
  at_most = leb;
  p95 = 95;
  p99 = 99;
}

abbrev times : List ℕ
times = 30 ∷ 10 ∷ 50 ∷ 20 ∷ 40 ∷ []

-- the entry of rank 3 of 10, 20, 30, 40, 50
p95_of_times : stat_p95 naturals times ≡ 40
unfolding stat_p95 percentile sort insert entry length
p95_of_times = refl

naturals-IsOrder : IsOrder naturals
naturals-IsOrder = record { total = λ x y. ground arith; trans = λ x y z h k. ground (arith, h, k) }

half : IsFraction naturals 50
half n small = omega arith

percentile-count_example :
    (2 < 5)
    × (2 < count (λ t. leb t (percentile naturals times 50)) times)
    × (5 ≤ 2 + count (leb (percentile naturals times 50)) times)
unfolding length
percentile-count_example =
    percentile-count naturals naturals-IsOrder times 50 half (omega arith) (omega arith)
