-- ===== src/Incidents.antt =====
-- The incident manager: backend/app/incidents/manager.py.
pub mod Symptoms
pub mod Scoring
pub mod Tables
pub mod Manager
pub mod Opening
pub mod Process
pub mod Log
pub mod Since
pub mod Decisions
