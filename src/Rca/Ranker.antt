-- ===== src/Rca/Ranker.antt =====
-- backend/app/rca/ranker.py: evidence scoring, the effects of conflicts, coverage and ranking.
pub mod Score
pub mod Observations
pub mod Factors
pub mod Timing
pub mod Coverage
pub mod Candidate
