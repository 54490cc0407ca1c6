-- ===== src/Orchestration.antt =====
-- backend/app/orchestration/orchestrator.py: the fingerprint of an analysis, the checks of its result,
-- its atomic publication, and the pipeline.
pub mod Runs
pub mod Fingerprint
pub mod Validation
pub mod Publish
pub mod Pipeline
pub mod Kept
pub mod Swapped
pub mod Published
pub mod Retry
pub mod Failure
pub mod Revisions
pub mod AnyOrder
