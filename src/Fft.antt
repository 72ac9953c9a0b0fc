-- ===== src/Fft.antt =====
-- The FFT half of the library: include/fft/fft.h, src/common/fft.cpp, src/common/backend.h and the
-- backends under src/backends.
pub mod Examples
pub mod Mkl
pub mod Kfr
pub mod Calls
pub mod Fftw3
pub mod Fftw
pub mod Types
pub mod Plan
pub mod Owner
pub mod Layout
pub mod Scale
pub mod Direction
pub mod Pocket
pub mod Armpl
pub mod Cmsis
pub mod Aocl
