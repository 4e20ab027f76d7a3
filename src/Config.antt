-- ===== src/Config.antt =====
-- config/: the configuration store and the trackers that routing consults.
pub mod RateLimit
pub mod Quota
pub mod Health
pub mod Store
