-- ===== src/Campaign/Run.antt =====
-- `run_signed_review_campaign` of src/specode_review/campaign.py. Times are milliseconds.
use Prim.Native.String.{String}
use specode_review.Base.{
  ℕ, zero, suc, ◌+◌, ◌-◌, Bool, ◌||◌, Option, none, some, List, [], ◌∷◌, ◌++◌, Text, text, any, min,
  leb, if◌then◌else◌,
}
use specode_review.Errors.{
  Raised, campaign_error, value_error, live_evidence_error, is_exception, Result, ok, err,
}
use specode_review.Exec.{Exec, pure, raise, catch, ◌>>=◌, ◌>>◌}
use specode_review.Live.{Expected, require_fresh_live_review, verify_live_review_evidence}
use specode_review.Models.{ReviewRequest}
use specode_review.Publishing.Gateway.{ReviewComment, ReviewCommentGateway}
use specode_review.Publishing.Comment.{Library, owned_revision_comments}
use specode_review.Resources.{is_owned, workspace_prefix}
use specode_review.Campaign.Target.{CampaignTarget, expected_revision}
use specode_review.Campaign.Records.{Record, matching_lifecycle_records, completed_attempt}

-- `CampaignEvidence`
pub record CampaignEvidence : Type 0 where
  pub comment_id : ℕ
  pub attempt_id : Text

-- What a campaign uses: GitHub, the host, the clock, and Python's libraries.
pub record Campaign (W : Type 0) : Type 0 where
  pub library : Library
  pub casefold : Text → Text
  pub json : Text → Option Record
  pub iterate : List Text → List Text
  pub gateway : ReviewCommentGateway W
  pub review_request : (pr_number installation_id : ℕ) → Exec W ReviewRequest
  pub require_installed_service : Exec W (Unit {0})
  pub journal_cursor : Exec W Text
  pub trigger_reopened_event : Text → ℕ → Exec W (Unit {0})
  pub journal_lines_after : Text → Exec W (List Text)
  pub owned_resource_names : Exec W (List Text × List Text)
  pub clock : W → ℕ
  pub sleep : ℕ → W → W

abbrev pub sandbox_prefix : Text
sandbox_prefix = text "specode-review-"

-- `except CampaignError`, `except Exception`
abbrev pub stage_of : String → Raised → Raised
stage_of stage (campaign_error s) = campaign_error s
stage_of stage e = if is_exception e then campaign_error stage else e

-- `except Exception`
abbrev pub any_of : String → Raised → Raised
any_of stage e = if is_exception e then campaign_error stage else e

-- `except LiveProfileEvidenceError`
abbrev pub evidence_failed : Raised → Raised
evidence_failed live_evidence_error = campaign_error "comment_evidence"
evidence_failed e = e

module _ {W : Type 0} where
  abbrev pub fail_if : Bool → String → Exec W (Unit {0})
  fail_if test stage w = (if test then err (campaign_error stage) else ok tt, w)

  abbrev pub otherwise : {A : Type 0} → A → Raised → Exec W A
  otherwise a e = if is_exception e then pure a else raise e

-- The texts that the journal must not hold.
abbrev pub forbidden_log : CampaignTarget → List Text
forbidden_log target =
    target.expected_finding ∷ target.forbidden_repository_text ++ target.forbidden_log_text

module _ {W : Type 0} (c : Campaign W) where
  -- `_require_no_owned_resources`
  unfoldable pub require_no_owned_resources : Exec W (Unit {0})
  unfolding is_owned
  require_no_owned_resources = do
    names ← catch c.owned_resource_names (λ e. raise (any_of "resource_inspection" e))
    fail_if (any (is_owned sandbox_prefix) names.0 || any (is_owned workspace_prefix) names.1)
        "resource_cleanup"

  -- The precondition of a campaign.
  unfoldable pub precondition : CampaignTarget → ℕ → Exec W ReviewRequest
  unfolding require_fresh_live_review expected_revision
  precondition target installation_id = do
    c.require_installed_service
    request ← c.review_request target.pr_number installation_id
    require_fresh_live_review c.library c.gateway request (expected_revision target)
    pure request

  abbrev pub expected_of : CampaignTarget → Expected
  expected_of target = record {
    finding = target.expected_finding;
    path = some target.expected_path;
    line = some target.expected_line;
    forbidden = target.forbidden_repository_text;
  }

  abbrev pub lift : {A : Type 0} → Result A → Exec W A
  lift r w = (r, w)

  module _ (target : CampaignTarget) (request : ReviewRequest) (cursor : Text) where
    abbrev pub conclude : ℕ → Option Text → Exec W (Option CampaignEvidence)
    conclude comment_id none = pure none
    conclude comment_id (some attempt_id) = do
      require_no_owned_resources
      pure (some (record { comment_id = comment_id; attempt_id = attempt_id }))

    -- What follows where there is one comment.
    unfoldable pub with_comment : Exec W (Option CampaignEvidence)
    unfolding verify_live_review_evidence require_no_owned_resources
    with_comment = do
      comment_id ←
          catch
            (verify_live_review_evidence c.library c.gateway request c.casefold
              (expected_of target))
            (λ e. raise (evidence_failed e))
      lines ← catch (c.journal_lines_after cursor) (otherwise [])
      records ←
          lift (matching_lifecycle_records c.casefold c.json lines request (forbidden_log target))
      attempt_id ← lift (completed_attempt c.iterate records)
      conclude comment_id attempt_id

    abbrev pub by_comments : List ReviewComment → Exec W (Option CampaignEvidence)
    by_comments [] = pure none
    by_comments (comment ∷ []) = with_comment
    by_comments (comment ∷ next ∷ comments) = raise (campaign_error "comment_evidence")

    -- One look at the comments.
    unfoldable pub look : Exec W (Option CampaignEvidence)
    unfolding with_comment
    look = do
      comments ← catch (owned_revision_comments c.library c.gateway request) (otherwise [])
      by_comments comments

    -- The end of a turn: the time is over, or a pause.
    unfoldable pub pause : (poll deadline : ℕ) → Exec W (Unit {0})
    pause poll deadline w =
        if leb deadline (c.clock w)
        then (err (campaign_error "timeout"), w)
        else (ok tt, c.sleep (min poll (deadline - c.clock w)) w)

    abbrev pub after_look :
        (Exec W (Option CampaignEvidence))
        → Option CampaignEvidence
        → Exec W (Option CampaignEvidence)
    after_look rest (some evidence) = pure (some evidence)
    after_look rest none = rest

    -- The loop, on fuel: `none` is its end.
    unfoldable pub watch : (turns poll deadline : ℕ) → Exec W (Option CampaignEvidence)
    unfolding look pause
    watch zero poll deadline = pure none
    watch (suc turns) poll deadline = do
      seen ← look
      after_look (do pause poll deadline; watch turns poll deadline) seen

  -- The loop ends within one turn for each millisecond, since each pause takes one at least.
  unfoldable pub run_signed_review_campaign :
      CampaignTarget → (installation_id timeout poll : ℕ) → Exec W (Option CampaignEvidence)
  unfolding precondition require_no_owned_resources watch
  run_signed_review_campaign target installation_id timeout poll = do
    lift (if leb installation_id 0 || (leb timeout 0 || leb poll 0) then err value_error else ok tt)
    request ← catch (precondition target installation_id) (λ e. raise (stage_of "precondition" e))
    require_no_owned_resources
    cursor ← catch c.journal_cursor (λ e. raise (any_of "signed_event" e))
    catch (c.trigger_reopened_event target.repository target.pr_number)
        (λ e. raise (any_of "signed_event" e))
    now ← λ (w : W). (ok (c.clock w), w)
    watch target request cursor (suc timeout) poll (now + timeout)
