-- ===== src/Warmup.antt =====
-- The exercises of warmup/.
pub mod Cpr
pub mod Fact
pub mod Wc
mod Tests
