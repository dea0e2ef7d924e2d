-- ===== src/Github/Mutations.antt =====
-- `create_review_comment` and `update_review_comment` of src/specode_review/github.py.
use specode_review.Base.{
  ℕ, Bool, not, Option, none, some, Text, text_equal, ◌==◌, is_empty, leb, ltb, if◌then◌else◌,
}
use specode_review.Errors.{
  GitHubOperation, review_comment_create, review_comment_update, github_error, value_error, Result,
  ok, err,
}
use specode_review.Exec.{Exec, ◌>>=◌, ◌>>◌}
use specode_review.Publishing.Gateway.{ReviewComment}
use specode_review.Github.{Reply, github_response_max_bytes, failure, request_result}

-- The response to a mutation: its size, and the comment that its JSON holds, if it is valid.
pub record CommentResponse : Type 0 where
  pub size : ℕ
  pub comment : Option ReviewComment

-- `_review_comment_response`
unfoldable pub comment_of : GitHubOperation → CommentResponse → Result ReviewComment
comment_of operation response =
    if ltb github_response_max_bytes response.size
    then err (github_error (failure operation none none))
    else elim response.comment [
      | none ↦ err (github_error (failure operation none none))
      | some comment ↦ ok comment
    ]

abbrev guard : {W : Type 0} → Bool → Exec W (Unit {0})
guard test w = (if test then ok tt else err value_error, w)

abbrev lift : {W A : Type 0} → Result A → Exec W A
lift r w = (r, w)

-- `installation_token` gives a token, `send` makes the call of `httpx` with it for an identifier and a
-- body, and `read` is the content of the response that a reply holds.
module _ {W : Type 0} (configured : Text) (installation_token : ℕ → Exec W Text)
    (read : Reply → CommentResponse) where
  unfoldable pub create_review_comment :
      (send : Text → ℕ → Text → Exec W Reply) → Text → ℕ → ℕ → Text → Exec W ReviewComment
  create_review_comment send repository pr_number installation_id body = do
    guard (repository == configured)
    guard (leb 1 pr_number)
    guard (not (is_empty body))
    token ← installation_token installation_id
    reply ← send token pr_number body
    lift (request_result review_comment_create "review_comment_create" 201 reply)
    lift (comment_of review_comment_create (read reply))

  unfoldable pub update_review_comment :
      (send : Text → ℕ → Text → Exec W Reply) → Text → ℕ → ℕ → Text → Exec W ReviewComment
  update_review_comment send repository comment_id installation_id body = do
    guard (repository == configured)
    guard (leb 1 comment_id)
    guard (not (is_empty body))
    token ← installation_token installation_id
    reply ← send token comment_id body
    lift (request_result review_comment_update "review_comment_update" 200 reply)
    lift (comment_of review_comment_update (read reply))
