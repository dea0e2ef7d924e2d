-- ===== src/Github.antt =====
-- src/specode_review/github.py: `GitHubClient`, how it calls the API of GitHub and what it raises, and
-- how it lists the comments of a pull request.
pub mod Complete
pub mod Mutations
mod Tests
use specode_review.Base.{
  ℕ, zero, suc, ◌*◌, Bool, true, false, not, ◌&&◌, ◌||◌, Option, none, some, List, [], ◌∷◌, ◌++◌,
  Text, text_equal, ◌==◌, nat_equal, any, length, leb, ltb, if◌then◌else◌,
}
use Prim.Native.String.{String}
use specode_review.Errors.{
  FailureCategory, timeout, ReviewError, GitHubOperation, review_comment_create,
  review_comment_update, review_comment_list, GitHubFailure, Raised, review_error, github_error,
  github_mutation_error, Result, ok, err,
}
use specode_review.Exec.{Exec, pure, ◌>>=◌, ◌>>◌}
use specode_review.Publishing.Gateway.{ReviewComment}

abbrev pub review_comment_page_size : ℕ
review_comment_page_size = 100

abbrev pub review_comment_max_pages : ℕ
review_comment_max_pages = 10

abbrev pub github_response_max_bytes : ℕ
github_response_max_bytes = 2 * 1024 * 1024

-- `httpx.URL`
pub record Url : Type 0 where
  pub scheme : Text
  pub host : Text
  pub port : Option ℕ
  pub path : Text
  pub fragment : Text
  pub whole : Text

-- The link to the next page: `url` is `none` where it is no string.
pub record Link : Type 0 where
  pub url : Option Url

-- A response: its status, the delay that its headers ask for, its size, the comments that its JSON
-- holds, if it is valid, and its link to the next page.
pub record HttpResponse : Type 0 where
  pub status_code : ℕ
  pub retry_after : Option ℕ
  pub size : ℕ
  pub comments : Option (List ReviewComment)
  pub next_link : Option Link

-- How a call of `httpx` ends.
pub data Reply : Type 0 where
  answered : HttpResponse → Reply
  timed_out http_failed : Reply

abbrev pub is_review_comment_mutation : GitHubOperation → Bool
is_review_comment_mutation review_comment_create = true
is_review_comment_mutation review_comment_update = true
is_review_comment_mutation _ = false

abbrev pub is_transient : ℕ → Bool
is_transient status = any (λ s. status == s) (408 ∷ 429 ∷ 500 ∷ 502 ∷ 503 ∷ 504 ∷ [])

abbrev is_some : Option ℕ → Bool
is_some none = false
is_some (some n) = true

abbrev pub failure : GitHubOperation → Option ℕ → Option ℕ → GitHubFailure
failure operation status_code retry_after = record {
  operation = operation;
  status_code = status_code;
  retry_after = retry_after;
}

-- `_request` behind its call of `httpx`; `stage` is the value of the operation.
unfoldable pub request_result : GitHubOperation → String → ℕ → Reply → Result HttpResponse
request_result operation stage expected_status timed_out =
    if is_review_comment_mutation operation
    then err (github_mutation_error (failure operation none none))
    else err (review_error (record { category = timeout; stage = stage }))
request_result operation stage expected_status http_failed =
    if is_review_comment_mutation operation
    then err (github_mutation_error (failure operation none none))
    else err (github_error (failure operation none none))
request_result operation stage expected_status (answered response) =
    let described = failure operation (some response.status_code) response.retry_after in
    if response.status_code == expected_status
    then ok response
    else if is_review_comment_mutation operation
        && (is_transient response.status_code || is_some response.retry_after)
    then err (github_mutation_error described)
    else err (github_error described)

-- `_validate_response` for a page of comments.
unfoldable pub page_of : HttpResponse → Result (List ReviewComment)
page_of response =
    if ltb github_response_max_bytes response.size
    then err (github_error (failure review_comment_list none none))
    else elim response.comments [
      | none ↦ err (github_error (failure review_comment_list none none))
      | some page ↦
          if leb (length page) review_comment_page_size
          then ok page
          else err (github_error (failure review_comment_list none none))
    ]

abbrev same_port : Option ℕ → Option ℕ → Bool
same_port none none = true
same_port (some a) (some b) = a == b
same_port _ _ = false

abbrev pub stays : Url → Text → Url → Bool
stays base_url expected_path url =
    (url.scheme == base_url.scheme)
    && ((url.host == base_url.host)
        && (same_port url.port base_url.port
            && ((url.path == expected_path) && (url.fragment == []))))

-- `_review_comment_next_path`
unfoldable pub next_path : Url → Text → Option Link → Result (Option Text)
next_path base_url expected_path none = ok none
next_path base_url expected_path (some link) = elim link.url [
  | none ↦ err (github_error (failure review_comment_list none none))
  | some url ↦
      if stays base_url expected_path url
      then ok (some url.whole)
      else err (github_error (failure review_comment_list none none))
]

abbrev lift : {W A : Type 0} → Result A → Exec W A
lift r w = (r, w)

-- `get` is the call of `httpx` for the path of a page, behind the check of the deadline.
module _ {W : Type 0} (get : Text → Exec W Reply) (base_url : Url) (expected_path : Text) where
  -- One turn of the loop: a page, and the path of the next.
  unfoldable pub fetch : Text → Exec W (List ReviewComment × Option Text)
  unfolding request_result page_of next_path
  fetch path = do
    reply ← get path
    response ← lift (request_result review_comment_list "review_comment_list" 200 reply)
    page ← lift (page_of response)
    next ← lift (next_path base_url expected_path response.next_link)
    pure (page, next)

  -- The loop of `list_review_comments`, with the number of turns that are left.
  unfoldable pub list_pages : ℕ → Option Text → List ReviewComment → Exec W (List ReviewComment)
  unfolding fetch
  list_pages turns none comments = pure comments
  list_pages zero (some path) comments =
      lift (err (github_error (failure review_comment_list none none)))
  list_pages (suc turns) (some path) comments = do
    found ← fetch path
    list_pages turns found.1 (comments ++ found.0)
