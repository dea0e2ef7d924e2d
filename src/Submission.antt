-- ===== src/Submission.antt =====
-- src/specode_review/submission.py, and `PreflightOutcome` of review_runner.py: what a coordinator
-- answers to a webhook, and what a preflight finds.
pub data SubmissionOutcome : Type 0 where
  accepted already_running already_reviewed not_authorized : SubmissionOutcome
  at_capacity stopping unavailable : SubmissionOutcome

pub data PreflightOutcome : Type 0 where
  ready already_reviewed not_authorized : PreflightOutcome
