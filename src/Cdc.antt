-- ===== src/Cdc.antt =====
-- internal/cdc: change capture.
pub mod Fields
pub mod Mysql
pub mod Postgres
