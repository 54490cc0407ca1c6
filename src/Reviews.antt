-- ===== src/Reviews.antt =====
-- Human reviews: backend/app/reviews/service.py with the tables and repositories that it works on.
pub mod Service
pub mod Outcome
pub mod Unique
pub mod Accepted
pub mod Lifecycle
pub mod Transition
