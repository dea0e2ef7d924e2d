-- ===== src/Core.antt =====
-- src/specode_review/core.py: from a candidate of the model to an accepted review.
pub mod Grounding
pub mod Accept
pub mod Reports
pub mod Diff
pub mod Review
mod Tests
