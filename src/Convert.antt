-- ===== src/Convert.antt =====
-- convert/: which dialect an attempt speaks.
pub mod Dialect
pub mod Json
pub mod Plan
pub mod Stream
