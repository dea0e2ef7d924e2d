-- ===== src/Github/Tests.antt =====
-- A listing of two pages.
use specode_review.Base.{
  ℕ, ◌≡◌, ◌↔◌, refl, true, Option, none, some, List, [], ◌∷◌, ◌++◌, Text, text, text_equal, ◌==◌,
  if◌then◌else◌,
}
use specode_review.Errors.{review_comment_create, ok}
use specode_review.Exec.{Exec}
use specode_review.Publishing.Gateway.{ReviewComment}
use specode_review.Github.{
  review_comment_max_pages, HttpResponse, Reply, answered, timed_out, Link, Url, fetch, list_pages,
  request_result, page_of, next_path, is_review_comment_mutation,
}
use specode_review.Github.Complete.{
  Pages, list_pages-Pages, IsUnexpected, IsAmbiguous, is_reconciled, request_mutation_iff,
}

abbrev url : Text → Url
url whole = record {
  scheme = text "https";
  host = text "api";
  port = none;
  path = text "/c";
  fragment = [];
  whole = whole;
}

abbrev page : ℕ → Option Link → HttpResponse
page id next_link = record {
  status_code = 200;
  retry_after = none;
  size = 10;
  comments = some ((record { id = id; body = []; performed_via_github_app = none }) ∷ []);
  next_link = next_link;
}

abbrev get : Text → Exec (Unit {0}) Reply
get path w = (
  ok (
      answered (
        if path == text "/c?1"
        then page 1 (some (record { url = some (url (text "/c?2")) }))
        else page 2 none)),
  w,
)

abbrev both : List ReviewComment
both =
    (record { id = 1; body = []; performed_via_github_app = none })
    ∷ (record { id = 2; body = []; performed_via_github_app = none })
    ∷ []

listed :
    list_pages get (url []) (text "/c") review_comment_max_pages (some (text "/c?1")) [] tt
    ≡ (ok both, tt)
unfolding list_pages fetch request_result page_of next_path
listed = refl

list_pages-Pages_example :
    (all : List ReviewComment) × (both ≡ [] ++ all)
    × Pages get (url []) (text "/c") (text "/c?1") tt all tt
list_pages-Pages_example =
    list_pages-Pages get (url []) (text "/c") review_comment_max_pages (text "/c?1") [] both tt tt
      listed

request_mutation_iff_example :
    (is_reconciled (request_result review_comment_create "review_comment_create" 201 timed_out)
      ≡ true)
    ↔ ((is_review_comment_mutation review_comment_create ≡ true)
        × IsUnexpected 201 timed_out
        × IsAmbiguous timed_out)
request_mutation_iff_example =
    request_mutation_iff review_comment_create "review_comment_create" 201 timed_out
