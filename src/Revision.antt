-- ===== src/Revision.antt =====
-- src/specode_review/accepted_revision.py: the identity under which a revision is reviewed once.
pub mod Identity
mod Tests
use specode_review.Base.{
  ℕ, ◌&&◌, Bool, true, ◌≡◌, ◌↔◌, ◌∷◌, ◌++◌, arith, Equal, nat_equal, ◌==◌, Text, text, text_equal,
  lower,
}
use specode_review.Base.Decimal.{decimal}
use specode_review.Models.{ReviewRequest}

pub record AcceptedRevision : Type 0 where
  pub repository : Text
  pub pr_number : ℕ
  pub base_sha : Text
  pub head_sha : Text

-- `AcceptedRevision.from_review_request`, with the validator that lowers the text fields.
unfoldable pub from_review_request : ReviewRequest → AcceptedRevision
from_review_request request = record {
  repository = lower request.repository;
  pr_number = request.pr_number;
  base_sha = lower request.base_sha;
  head_sha = lower request.head_sha;
}

abbrev revision_eq : AcceptedRevision → AcceptedRevision → Bool
revision_eq r s =
    (r.repository == s.repository)
    && ((r.pr_number == s.pr_number) && ((r.base_sha == s.base_sha) && (r.head_sha == s.head_sha)))

pub revision_eq_iff : (r s : AcceptedRevision) → (revision_eq r s ≡ true) ↔ (r ≡ s)
revision_eq_iff r s = ground (
  arith,
  text_equal.equals_iff r.repository s.repository,
  text_equal.equals_iff r.base_sha s.base_sha,
  text_equal.equals_iff r.head_sha s.head_sha,
)

instance abbrev pub revision_equal : Equal AcceptedRevision
revision_equal = record { equals = revision_eq; equals_iff = revision_eq_iff }

-- The text that is hashed: `f"v1\n{repository}\n{pr_number}\n{base_sha}\n{head_sha}"`.
unfoldable pub canonical : AcceptedRevision → Text
canonical r =
    text "v1"
    ++ 10 ∷ (r.repository ++ 10 ∷ (decimal r.pr_number ++ 10 ∷ (r.base_sha ++ 10 ∷ r.head_sha)))

-- `external_id`; `sha256` stands for `hashlib.sha256(…).hexdigest()` of the UTF-8 text.
unfoldable pub external_id : (Text → Text) → AcceptedRevision → Text
unfolding canonical
external_id sha256 r = text "specode-review:v1:" ++ sha256 (canonical r)
