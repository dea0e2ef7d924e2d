-- ===== src/Campaign/Target.antt =====
-- `CampaignTarget` of src/specode_review/campaign.py.
use specode_review.Base.{
  ℕ, Bool, false, not, ◌&&◌, ◌||◌, Option, none, some, List, [], ◌∷◌, Text, text, text_equal,
  nat_equal, ◌==◌, nat_eq, length, leb, ltb, any, all, filter, contains, is_empty, lower,
  if◌then◌else◌,
}
use specode_review.Base.Substring.{occurs, split_text}
use specode_review.Core.Diff.{strip}
use specode_review.Files.{FilePath, path_text}
use specode_review.Models.{is_sha, is_repository_name}
use specode_review.Revision.{AcceptedRevision}

pub record CampaignTarget : Type 0 where
  pub repository : Text
  pub pr_number : ℕ
  pub base_sha : Text
  pub head_sha : Text
  pub expected_finding : Text
  pub expected_path : Text
  pub expected_line : ℕ
  pub forbidden_repository_text : List Text
  pub forbidden_log_text : List Text

-- `partition("/")[2]`
abbrev behind_slash : Text → Text
behind_slash [] = []
behind_slash (c ∷ s) = let rest = behind_slash s in if nat_eq c b'/' then s else rest

-- `dedicated_test_repository`, before it lowers the name.
unfoldable pub is_test_repository : (casefold : Text → Text) → Text → Bool
unfolding occurs
is_test_repository casefold repository = occurs (text "test") (casefold (behind_slash repository))

abbrev starts_with_slash : Text → Bool
starts_with_slash [] = false
starts_with_slash (c ∷ s) = nat_eq c b'/'

-- The names that `PurePosixPath` keeps of a relative path.
abbrev path_parts : Text → List Text
path_parts value =
    filter (λ part. not (is_empty part) && not (part == text "."))
      (split_text (b'/' ∷ []) 0 [] value)

abbrev relative : Text → FilePath
relative value = record { anchor = []; parts = path_parts value }

-- `normalized_relative_path`
unfoldable pub is_normalized_path : Text → Bool
unfolding split_text path_text
is_normalized_path value =
    not (starts_with_slash value)
    && ((path_text (relative value) == value)
        && not (
            any (λ part. is_empty part || ((part == text ".") || (part == text "..")))
              (path_parts value)))

-- `bounded_expected_finding`
unfoldable pub is_normalized_line : Text → Bool
is_normalized_line value = (strip value == value) && not (contains value 10)

-- One item of `bounded_forbidden_text`.
unfoldable pub is_bounded_item : Text → Bool
unfolding is_normalized_line
is_bounded_item item = not (is_empty item) && (is_normalized_line item && leb (length item) 256)

abbrev bounded : ℕ → ℕ → Text → Bool
bounded low high s = leb low (length s) && leb (length s) high

-- The constructor: `none` for a `ValidationError`.
unfoldable pub campaign_target : (casefold : Text → Text) → CampaignTarget → Option CampaignTarget
unfolding is_test_repository is_normalized_path is_bounded_item
campaign_target casefold t =
    if is_repository_name t.repository
      && (ltb 0 t.pr_number
          && (is_sha t.base_sha
              && (is_sha t.head_sha
                  && (bounded 1 160 t.expected_finding
                      && (bounded 1 512 t.expected_path
                          && (ltb 0 t.expected_line
                              && (leb (length t.forbidden_repository_text) 8
                                  && leb (length t.forbidden_log_text) 8)))))))
      && (is_test_repository casefold t.repository
          && (is_normalized_path t.expected_path
              && (is_normalized_line t.expected_finding
                  && (all is_bounded_item t.forbidden_repository_text
                      && all is_bounded_item t.forbidden_log_text))))
    then some (record t { repository = lower t.repository })
    else none

-- `_expected_revision`
unfoldable pub expected_revision : CampaignTarget → AcceptedRevision
expected_revision t = record {
  repository = t.repository;
  pr_number = t.pr_number;
  base_sha = t.base_sha;
  head_sha = t.head_sha;
}
