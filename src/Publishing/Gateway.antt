-- ===== src/Publishing/Gateway.antt =====
-- `ReviewCommentGateway` of src/specode_review/github.py: what the publication asks of GitHub. Its
-- state is a parameter, so that a theorem may take any.
use specode_review.Base.{ℕ, Option, List, Text}
use specode_review.Exec.{Exec}
use specode_review.Models.{ReviewRequest}

-- `ReviewComment`, with the `id` of `performed_via_github_app`.
pub record ReviewComment : Type 0 where
  pub id : ℕ
  pub body : Text
  pub performed_via_github_app : Option ℕ

-- The calls take the repository, the pull request and the installation from the request.
pub record ReviewCommentGateway (W : Type 0) : Type 0 where
  pub app_id : ℕ
  pub list_review_comments : ReviewRequest → Exec W (List ReviewComment)
  pub create_review_comment : ReviewRequest → Text → Exec W ReviewComment
  pub update_review_comment : ReviewRequest → ℕ → Text → Exec W ReviewComment

-- `_PublicationTiming`: waiting, and the time that is left of the review, in milliseconds.
pub record PublicationTiming (W : Type 0) : Type 0 where
  pub sleeper : ℕ → W → W
  pub remaining_time : Exec W (Option ℕ)
