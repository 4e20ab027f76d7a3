-- ===== src/Domain.antt =====
-- domain/: the data that a configuration file holds and the record of one proxied request.
pub mod Server
pub mod Rule
pub mod Settings
pub mod Metric
pub mod Float
