-- ===== src/Db.antt =====
-- The database of backend/app/db: rows, and the queries and writes that the services share.
pub mod Tables
pub mod Repositories
