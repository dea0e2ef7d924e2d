-- ===== src/Publishing/Tests.antt =====
-- The publication at concrete inputs, against a pull request that holds one comment at most.
use specode_review.Base.{
  Bool-cases, inr, ℕ, ◌≤◌, ◌<◌, ◌≡◌, ◌≢◌, refl, inl, true, Option, none, some, List, [], ◌∷◌, ◌++◌,
  arith, Text, text, nat_eq, length, replicate, utf8_length, utf8_width, if◌then◌else◌, All, lower,
  text_equal, leb,
}
use specode_review.Base.Decimal.{decimal}
use specode_review.Errors.{GitHubFailure, review_comment_update, github_error, Result, ok, err}
use specode_review.Models.{
  ReviewRequest, ReviewResult, no_important_issues, is_sha, valid_agent_review,
}
use specode_review.Revision.{from_review_request, external_id}
use specode_review.Publishing.CodeSpan.{
  longest_backtick_run, longest_run_from, render_code_span, backtick,
}
use specode_review.Publishing.CodeSpan.Delimiter.{delimiter_absent}
use specode_review.Publishing.SafeText.{sanitize, safe_model_text, byte_budget}
use specode_review.Publishing.SafeText.Bound.{utf8_length-safe_model_text}
use specode_review.Publishing.SafeText.Clean.{IsClean, sanitize-IsClean}
use specode_review.Publishing.Render.{
  github_comment_max_bytes, render_review_comment, comment_lines, result_lines, join_lines, rstrip,
}
use specode_review.Publishing.Gateway.{ReviewComment, ReviewCommentGateway, PublicationTiming}
use specode_review.Publishing.Contract.{GitHubContract, HasDistinctIds, Created, Updated}
use specode_review.Publishing.Comment.{
  Library, same_identity, expected_review_comment, review_marker, is_owned_marker_comment,
  ends_with, split_lines, owned_revision_comments,
}
use specode_review.Publishing.Comment.Marker.{IsDigest}
use specode_review.Publishing.Comment.Total.{expected_review_comment_total}
use specode_review.Publishing.Publish.{
  PublicationDisposition, publish_review_result, publish_matches, mutate, settle_mutation,
  confirmed_receipt, confirmed_by,
}
use specode_review.Publishing.Confirmed.Reconcile.{owned, Published}
use specode_review.Publishing.Confirmed.{publish_at_most_one, publish_confirmed, publish_again}

abbrev pub library : Library
library = record { is_other = λ c. leb c 31; sha256 = λ s. replicate 64 b'0' }

pub library-IsDigest : IsDigest library.sha256
library-IsDigest = record { hex = λ s. refl; size = λ s. refl }

abbrev sha : Text
sha = replicate 40 b'a'

abbrev pub request : ReviewRequest
request = record {
  repository = text "o/r";
  pr_number = 7;
  installation_id = 1;
  base_sha = sha;
  head_sha = sha;
  title = text "t";
  description = [];
}

abbrev pub result : ReviewResult
result = record {
  repository = text "o/r";
  pr_number = 7;
  diff_range = record { start_sha = sha; end_sha = sha };
  status = no_important_issues;
  findings = [];
}

abbrev unwrap : Result Text → Text
unwrap (ok body) = body
unwrap (err e) = []

pub body : Text
unfolding expected_review_comment
body = unwrap (expected_review_comment library request result)

pub expected : expected_review_comment library request result ≡ ok body
unfolding body render_review_comment comment_lines result_lines join_lines rstrip review_marker
    external_id from_review_request lower decimal utf8_length utf8_width
expected = refl

-- The state is the body of the one comment, if there is one.
abbrev pub World : Type 0
World = Option Text

abbrev comment : Text → ReviewComment
comment b = record { id = 1; body = b; performed_via_github_app = some 9 }

abbrev pub comments : World → List ReviewComment
comments none = []
comments (some b) = comment b ∷ []

abbrev refused : GitHubFailure
refused = record { operation = review_comment_update; status_code = none; retry_after = none }

abbrev create : Text → World → Result ReviewComment × World
create b none = (ok (comment b), some b)
create b (some c) = (err (github_error refused), some c)

abbrev update : ℕ → Text → World → Result ReviewComment × World
update id b none = (err (github_error refused), none)
update id b (some c) =
    if nat_eq 1 id then (ok (comment b), some b) else (err (github_error refused), some c)

abbrev pub gateway : ReviewCommentGateway World
gateway = record {
  app_id = 9;
  list_review_comments = λ q w. (ok (comments w), w);
  create_review_comment = λ q b w. create b w;
  update_review_comment = λ q id b w. update id b w;
}

abbrev pub timing : PublicationTiming World
timing = record { sleeper = λ d w. w; remaining_time = λ w. (ok none, w) }

distinct : (w : World) → HasDistinctIds (comments w)
distinct none = tt
distinct (some b) = (tt, tt)

created : (b : Text) (w : World) → Created comments 9 b w (create b w)
created b none = (refl, refl)
created b (some c) = inl refl

updated : (id : ℕ) (b : Text) (w : World) → Updated comments id b w (update id b w)
updated id b none = inl refl
updated id b (some c) = elim (Bool-cases (nat_eq 1 id)) [
  | inl one ↦ rw one (ground arith, rw one)
  | inr another ↦ rw another (inl refl)
]

pub contract : GitHubContract gateway timing comments
contract = record {
  distinct_ids = distinct;
  listed = λ q w. (refl, refl);
  created = λ q b w. created b w;
  updated = λ q id b w. updated id b w;
  slept = λ d w. refl;
  timed = λ w. refl;
}

publish_at_most_one_example :
    length (
      owned library gateway timing comments contract request
        (publish_review_result library gateway timing request result none).1)
    ≤ 1
publish_at_most_one_example =
    publish_at_most_one library gateway timing comments contract library-IsDigest request result
      body expected none (omega arith)

-- The comment is created where there is none, and the second publication finds it.
pub publish_creates :
    publish_review_result library gateway timing request result none
    ≡ (ok (record { comment_id = 1; disposition = PublicationDisposition.created }), some body)
unfolding publish_review_result publish_matches mutate settle_mutation confirmed_receipt
    confirmed_by expected_review_comment body same_identity is_owned_marker_comment
    owned_revision_comments split_lines ends_with render_review_comment comment_lines result_lines
    join_lines rstrip review_marker external_id from_review_request lower decimal utf8_length
    utf8_width
publish_creates = refl

publish_confirmed_example :
    Published library gateway timing comments contract request body
      (some body)
      (record { comment_id = 1; disposition = PublicationDisposition.created })
publish_confirmed_example =
    publish_confirmed library gateway timing comments contract library-IsDigest request result body
      expected none (some body)
      (record { comment_id = 1; disposition = PublicationDisposition.created }) (omega arith)
      publish_creates

published :
    Published library gateway timing comments contract request body
      (some body)
      (record { comment_id = 1; disposition = PublicationDisposition.created })
unfolding is_owned_marker_comment ends_with body expected_review_comment render_review_comment
    comment_lines result_lines join_lines rstrip review_marker external_id from_review_request lower
    decimal utf8_length utf8_width
published = (comment body, refl, refl, refl)

publish_again_example :
    let (answer, w) = publish_review_result library gateway timing request result (some body) in
    (answer ≡ ok (record { comment_id = 1; disposition = PublicationDisposition.already_current }))
    × (comments w ≡ comments (some body))
unfolding same_identity lower
publish_again_example =
    publish_again library gateway timing comments contract library-IsDigest request result body
      expected (some body) (record { comment_id = 1; disposition = PublicationDisposition.created })
      refl published (comments (some body)) refl

-- A pull request with two comments of the revision, which nobody may change.
abbrev twice : List ReviewComment
twice = comment body ∷ (record { id = 2; body = body; performed_via_github_app = some 9 }) ∷ []

abbrev frozen : ReviewCommentGateway (Unit {0})
frozen = record {
  app_id = 9;
  list_review_comments = λ q w. (ok twice, w);
  create_review_comment = λ q b w. (err (github_error refused), w);
  update_review_comment = λ q id b w. (err (github_error refused), w);
}

abbrev frozen_timing : PublicationTiming (Unit {0})
frozen_timing = record { sleeper = λ d w. w; remaining_time = λ w. (ok none, w) }

frozen_contract : GitHubContract frozen frozen_timing (λ w. twice)
frozen_contract = record {
  distinct_ids = λ w. (((λ e. omega arith), tt), (tt, tt));
  listed = λ q w. (refl, refl);
  created = λ q b w. inl refl;
  updated = λ q id b w. inl refl;
  slept = λ d w. refl;
  timed = λ w. refl;
}

both_owned : 1 < length (owned library frozen frozen_timing (λ w. twice) frozen_contract request tt)
unfolding is_owned_marker_comment ends_with body expected_review_comment render_review_comment
    comment_lines result_lines join_lines rstrip review_marker external_id from_review_request lower
    decimal utf8_length utf8_width
both_owned = omega arith

sha-valid : is_sha sha ≡ true
unfolding is_sha
sha-valid = refl

no_findings-valid : valid_agent_review (record { findings = [] }) ≡ true
unfolding valid_agent_review
no_findings-valid = refl

expected_review_comment_total_example :
    (b : Text) × (expected_review_comment library request result ≡ ok b)
    × (utf8_length b < github_comment_max_bytes)
expected_review_comment_total_example =
    expected_review_comment_total library request result library-IsDigest sha-valid sha-valid
      no_findings-valid

delimiter_absent_example :
    (n : ℕ) × (1 ≤ n)
    × (render_code_span (text "a`b``")
        ≡ replicate n backtick ++ 32 ∷ (text "a`b``" ++ 32 ∷ replicate n backtick))
    × ((before after : Text) → text "a`b``" ≢ before ++ (replicate n backtick ++ after))
delimiter_absent_example = delimiter_absent (text "a`b``")

utf8_length-safe_model_text_example :
    utf8_length (safe_model_text library.is_other (text "a`b\nc") 9) ≤ 50
utf8_length-safe_model_text_example = utf8_length-safe_model_text library.is_other (text "a`b\nc") 9

sanitize-IsClean_example :
    All (IsClean library.is_other) (sanitize library.is_other (65 ∷ 13 ∷ 10 ∷ 7 ∷ []))
sanitize-IsClean_example = sanitize-IsClean library.is_other refl refl (65 ∷ 13 ∷ 10 ∷ 7 ∷ [])

abbrev long_text : Text
long_text = replicate 40 b'x'

long_text-long :
    byte_budget 1 < utf8_length (render_code_span (sanitize library.is_other long_text))
unfolding render_code_span longest_backtick_run longest_run_from sanitize utf8_length utf8_width
long_text-long = omega arith
