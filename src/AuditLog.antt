-- ===== src/AuditLog.antt =====
-- internal/auditlog: the hash-chained audit log.
pub mod Record
pub mod Chain
pub mod Store
pub mod Factory
pub mod Postgres
pub mod Tests
