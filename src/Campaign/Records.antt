-- ===== src/Campaign/Records.antt =====
-- The journal of a campaign: which records are of a request, and which attempt they show completed.
use specode_review.Base.{
  ℕ, Bool, true, false, not, ◌&&◌, ◌||◌, Option, none, some, List, [], ◌∷◌, Text, text, text_equal,
  nat_equal, ◌==◌, any, contains, length, ltb, utf8_length, if◌then◌else◌,
}
use specode_review.Base.Dict.{Dict, lookup}
use specode_review.Base.Substring.{occurs}
use specode_review.Errors.{campaign_error, Result, ok, err}
use specode_review.Models.{ReviewRequest}
use specode_review.Publishing.Render.{join_lines}
use specode_review.Resources.{is_attempt_id}
use specode_review.Revision.{AcceptedRevision, from_review_request}

abbrev pub max_journal_bytes : ℕ
max_journal_bytes = 1048576

-- A value of a JSON object, as far as it is looked at: a text, a number that is an integer, or another.
-- A Boolean is none of those; Python takes `true` for 1, which no journal of the service holds.
pub data Value : Type 0 where
  str : Text → Value
  number : ℕ → Value
  another : Value

abbrev pub Record : Type 0
Record = Dict Text Value

abbrev pub is_str : Text → Option Value → Bool
is_str s none = false
is_str s (some (str t)) = t == s
is_str s (some (number n)) = false
is_str s (some another) = false

abbrev is_number : ℕ → Option Value → Bool
is_number n none = false
is_number n (some (number m)) = m == n
is_number n (some (str t)) = false
is_number n (some another) = false

-- `record.get(key) == value`
abbrev pub says : Text → Text → Record → Bool
says key value record_ = is_str value (lookup key record_)

abbrev is_of : AcceptedRevision → Record → Bool
is_of revision record_ =
    says (text "repository") revision.repository record_
    && (is_number revision.pr_number (lookup (text "pull_request") record_)
        && says (text "accepted_revision") revision.head_sha record_)

abbrev prepend : Option Record → AcceptedRevision → Result (List Record) → Result (List Record)
prepend none revision rest = rest
prepend (some record_) revision (ok records) =
    if is_of revision record_ then ok (record_ ∷ records) else ok records
prepend (some record_) revision (err e) = err e

-- The loop over the lines; `parse` is `json.loads`, and `none` for what is no JSON or no object.
unfoldable pub read_records :
    (Text → Option Record) → AcceptedRevision → List Text → Result (List Record)
read_records parse revision [] = ok []
read_records parse revision (line ∷ lines) =
    let rest = prepend (parse line) revision (read_records parse revision lines) in
    if contains line 10 then err (campaign_error "log_evidence") else rest

-- `_matching_lifecycle_records`
unfoldable pub matching_lifecycle_records :
    (casefold : Text → Text)
    → (Text → Option Record)
    → List Text
    → ReviewRequest
    → List Text
    → Result (List Record)
unfolding read_records join_lines occurs
matching_lifecycle_records casefold parse lines request forbidden_texts =
    let rendered = join_lines lines in
    if ltb max_journal_bytes (utf8_length rendered)
    then err (campaign_error "log_evidence")
    else if any (λ part. occurs (casefold part) (casefold rendered)) forbidden_texts
    then err (campaign_error "log_redaction")
    else read_records parse (from_review_request request) lines

abbrev event : Text → Record → Bool
event name record_ = says (text "event") name record_

-- `attempt_id` of a record, if it is one.
abbrev pub attempt_of : Option Value → Option Text
attempt_of none = none
attempt_of (some (str id)) = if is_attempt_id id then some id else none
attempt_of (some (number n)) = none
attempt_of (some another) = none

abbrev pub attempt_id : Record → Option Text
attempt_id record_ = attempt_of (lookup (text "attempt_id") record_)

abbrev pub add_new : Option Text → List Text → List Text
add_new none ids = ids
add_new (some id) ids = if contains ids id then ids else id ∷ ids

-- The identities of the records that pass a test, as a set.
unfoldable pub attempts_of : (Record → Bool) → List Record → List Text
attempts_of p [] = []
attempts_of p (record_ ∷ records) =
    let rest = attempts_of p records in
    if p record_ then add_new (attempt_id record_) rest else rest

abbrev pub is_acceptance : Record → Bool
is_acceptance r =
    event (text "admission") r && says (text "admission_disposition") (text "accepted") r

abbrev is_clean : Record → Bool
is_clean r = event (text "cleanup") r && says (text "cleanup_outcome") (text "confirmed") r

abbrev is_publication : Record → Bool
is_publication r =
    event (text "publication") r
    && (says (text "publication_disposition") (text "created") r
        || says (text "publication_disposition") (text "reconciled") r)

abbrev is_success : Record → Bool
is_success r =
    event (text "terminal_release") r && says (text "terminal_outcome") (text "succeeded") r

-- A record of a failure.
abbrev pub is_failure : Record → Bool
is_failure r =
    event (text "normalized_failure") r
    || (event (text "terminal_release") r
        && not (says (text "terminal_outcome") (text "succeeded") r))

-- A record of the attempt that passes a test.
abbrev pub has : (Record → Bool) → Text → List Record → Bool
has p id records = any (λ r. says (text "attempt_id") id r && p r) records

-- The four records of an attempt.
unfoldable pub is_complete : List Record → Text → Bool
is_complete records id =
    has is_acceptance id records
    && (has is_clean id records && (has is_publication id records && has is_success id records))

unfoldable pub first_complete : List Record → List Text → Option Text
first_complete records [] = none
first_complete records (id ∷ ids) =
    let rest = first_complete records ids in if is_complete records id then some id else rest

-- `_completed_attempt`; `iterate` is the order in which Python goes through a set.
unfoldable pub completed_attempt : (List Text → List Text) → List Record → Result (Option Text)
unfolding attempts_of first_complete
completed_attempt iterate records =
    if any is_failure records
    then err (campaign_error "technical_failure")
    else if ltb 1 (length (attempts_of is_acceptance records))
    then err (campaign_error "duplicate_execution")
    else ok (first_complete records (iterate (attempts_of (λ r. true) records)))
