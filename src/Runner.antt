-- ===== src/Runner.antt =====
-- src/specode_review/review_runner.py: `ReviewRunner`, the transaction of one review, over an
-- interface of the collaborators that it is given.
pub mod Run
pub mod Preflight
pub mod Recorded
pub mod Track
pub mod Settle
pub mod Transaction
mod Tests
