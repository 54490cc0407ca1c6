-- ===== src/Ingestion.antt =====
-- backend/app/ingestion: the redaction of payloads, the guard against labels, and the pipeline that
-- accepts, collapses or quarantines a record.
pub mod Redaction
pub mod Tables
pub mod Pipeline
pub mod Steps
