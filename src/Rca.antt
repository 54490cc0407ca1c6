-- ===== src/Rca.antt =====
-- backend/app/rca: the pure root-cause engine.
pub mod Contracts
pub mod Traversal
pub mod Catalogue
pub mod Events
pub mod Generator
pub mod Ranker
pub mod ResultGraph
pub mod Engine
