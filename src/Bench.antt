-- ===== src/Bench.antt =====
-- The statistics and the runs of the benchmarks, in bench/.
pub mod Percentile
pub mod Register
pub mod Fir
pub mod Fft
