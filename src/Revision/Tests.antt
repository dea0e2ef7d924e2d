-- ===== src/Revision/Tests.antt =====
-- The identity of concrete requests.
use specode_review.Base.{[], ◌≡◌, refl, true, text, lower, replicate, Text}
use specode_review.Models.{ReviewRequest, is_repository_name, name_head, name_tail, is_sha}
use specode_review.Revision.{from_review_request, canonical}
use specode_review.Revision.Identity.{valid_identity, canonical-injective}

abbrev sha : Text
sha = replicate 40 b'A'

abbrev request : ReviewRequest
request = record {
  repository = text "Octo/Repo";
  pr_number = 12;
  installation_id = 3;
  base_sha = sha;
  head_sha = sha;
  title = text "t";
  description = [];
}

abbrev lowered : ReviewRequest
lowered = record request { repository = text "octo/repo"; base_sha = replicate 40 b'a' }

request-valid : valid_identity request ≡ true
unfolding is_repository_name name_head name_tail is_sha
request-valid = refl

lowered-valid : valid_identity lowered ≡ true
unfolding is_repository_name name_head name_tail is_sha
lowered-valid = refl

same_text : canonical (from_review_request request) ≡ canonical (from_review_request lowered)
unfolding canonical from_review_request lower
same_text = refl

canonical-injective_example : from_review_request request ≡ from_review_request lowered
canonical-injective_example =
    canonical-injective request lowered request-valid lowered-valid same_text
