-- ===== src/Environments.antt =====
-- app/environments: the records, the quotas and the service that owns them.
pub mod Records
pub mod Segments
pub mod Quotas
pub mod Service
