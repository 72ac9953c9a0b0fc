-- ===== src/Fir.antt =====
-- The FIR half of the library: include/fir/fir.h, src/common/fir.cpp, src/common/fir_backend.h and
-- the backends under src/backends.
pub mod Types
pub mod Response
pub mod Plan
pub mod Owner
pub mod Session
pub mod Samples
pub mod Examples
pub mod Agreement
pub mod Bank
pub mod Portable
pub mod Ipp
pub mod Liquid
pub mod Kfr
pub mod Cmsis
