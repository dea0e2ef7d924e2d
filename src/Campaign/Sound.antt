-- ===== src/Campaign/Sound.antt =====
-- What the evidence of a campaign rests on.
use Prim.Native.String.{String}
use mathlib.Core.Path.{subst}
use specode_review.Base.{
  ℕ, zero, suc, ◌≡◌, ◌⊎◌, inl, inr, refl, ◌∙◌, ap, Bool, true, false, ◌||◌, Option, none, some,
  List, [], ◌∷◌, arith, Text, any,
}
use specode_review.Errors.{Raised, Result, ok, err}
use specode_review.Exec.{Exec, pure, raise, catch, ◌>>◌}
use specode_review.Exec.Leads.{Leads, leads}
use specode_review.Live.{verify_live_review_evidence}
use specode_review.Live.Evidence.{HasEvidence, evidence}
use specode_review.Models.{ReviewRequest}
use specode_review.Publishing.Gateway.{ReviewComment}
use specode_review.Publishing.Comment.{owned_revision_comments}
use specode_review.Resources.{is_owned, workspace_prefix}
use specode_review.Campaign.Target.{CampaignTarget}
use specode_review.Campaign.Records.{
  Record, read_records, is_complete, matching_lifecycle_records, completed_attempt,
}
use specode_review.Campaign.Completed.{KeepsMembers, CompletedOnce, completed_attempt_iff}
use specode_review.Campaign.Run.{
  Campaign, CampaignEvidence, sandbox_prefix, any_of, evidence_failed, fail_if, otherwise,
  require_no_owned_resources, expected_of, lift, forbidden_log, conclude, with_comment, by_comments,
  look, pause, after_look, watch,
}

-- A handler that raises returns only what the body returns.
pub caught :
    {W A : Type 0} (m : Exec W A) (handler : Raised → Raised) (a : A) (w w' : W)
    → catch m (λ e. raise (handler e)) w ≡ (ok a, w')
    → m w ≡ (ok a, w')
caught m handler a w w' h = ground (arith, h)

abbrev value_of : Result (Option CampaignEvidence) → Option CampaignEvidence
value_of (ok o) = o
value_of (err e) = none

module _ {W : Type 0} (c : Campaign W) where
  -- The host named, from the one state to the other, no sandbox and no workspace of the program.
  abbrev pub IsClean : W → W → Type 0
  IsClean w w' =
      (sandboxes : List Text) × (workspaces : List Text) × (c.owned_resource_names w
        ≡ (ok (sandboxes, workspaces), w'))
      × (any (is_owned sandbox_prefix) sandboxes ≡ false)
      × (any (is_owned workspace_prefix) workspaces ≡ false)

  not_failed :
      (test : Bool) (stage : String) (u : Unit {0}) (w w' : W)
      → fail_if test stage w ≡ (ok u, w')
      → (test ≡ false) × (w ≡ w')
  not_failed true stage u w w' h = absurd (cc h)
  not_failed false stage u w w' h = (refl, ap (λ p. p.1) h)

  pub clean : (w : W) → Leads (λ (u : Unit {0}) w'. IsClean w w') w (require_no_owned_resources c)
  unfolding require_no_owned_resources
  clean w =
      leads (catch c.owned_resource_names (λ e. raise (any_of "resource_inspection" e)))
        (λ names.
          fail_if (any (is_owned sandbox_prefix) names.0 || any (is_owned workspace_prefix) names.1)
            "resource_cleanup")
        λ names w1 named. record {
          at = λ u w2 h.
              let (free, end) = not_failed _ "resource_cleanup" u w1 w2 h in
              (
                names.0,
                names.1,
                caught c.owned_resource_names (any_of "resource_inspection") names w w1 named
                    ∙ ap (λ (x : W). (ok names, x)) end,
                ground (arith, free),
                ground (arith, free),
              );
        }

  module _ (keeps : KeepsMembers c.iterate) (target : CampaignTarget) (request : ReviewRequest)
      (cursor : Text) where
    -- The look that ends a campaign, each call from the state in which the one before it ended: one
    -- comment is listed, and again with its evidence; the journal shows the attempt completed; and the
    -- host is clean.
    pub record Concludes (e : CampaignEvidence) (w w' : W) : Type 0 where
      pub s1 : W
      pub s2 : W
      pub s3 : W
      pub comment : ReviewComment
      pub lines : List Text
      pub records : List Record
      pub listed : owned_revision_comments c.library c.gateway request w ≡ (ok (comment ∷ []), s1)
      pub shown :
          HasEvidence c.library c.gateway request c.casefold
            (expected_of c target)
            e.comment_id
            s1
            s2
      pub read : c.journal_lines_after cursor s2 ≡ (ok lines, s3)
      pub matched :
          matching_lifecycle_records c.casefold c.json lines request (forbidden_log target)
          ≡ ok records
      pub completed : CompletedOnce records e.attempt_id
      pub clean_after : IsClean s3 w'

    abbrev Concluded : Option CampaignEvidence → W → W → Type 0
    Concluded none w w' = Unit
    Concluded (some e) w w' = Concludes e w w'

    same_end :
        (P : Option CampaignEvidence → W → Type 0) (o : Option CampaignEvidence) (w : W)
        → P o w
        → Leads P w (pure o)
    same_end P o w proof = record {
      at = λ o' w' h.
          subst (P o') (ap (λ p. p.1) h) (subst (λ x. P x w) (ap (λ p. value_of p.0) h) proof);
    }

    -- Lines that were read, or none because the journal could not be.
    lines_read :
        (lines : List Text) (w w' : W)
        → catch (c.journal_lines_after cursor) (otherwise []) w ≡ (ok lines, w')
        → (c.journal_lines_after cursor w ≡ (ok lines, w')) ⊎ (lines ≡ [])
    lines_read lines w w' h = ground (arith, h)

    nothing_matched :
        (records : List Record)
        → matching_lifecycle_records c.casefold c.json [] request (forbidden_log target)
          ≡ ok records
        → records ≡ []
    unfolding matching_lifecycle_records read_records
    nothing_matched records h = ground (arith, h)

    nothing_completed : (id : Text) → CompletedOnce [] id → ⊥
    unfolding is_complete
    nothing_completed id once = absurd (cc (once.2))

    really_read :
        (lines : List Text) (records : List Record) (id : Text) (w w' : W)
        → catch (c.journal_lines_after cursor) (otherwise []) w ≡ (ok lines, w')
        → matching_lifecycle_records c.casefold c.json lines request (forbidden_log target)
          ≡ ok records
        → CompletedOnce records id
        → c.journal_lines_after cursor w ≡ (ok lines, w')
    really_read lines records id w w' h matched once = elim (lines_read lines w w' h) [
      | inl read ↦ read
      | inr nothing ↦
          let matched_nothing : matching_lifecycle_records c.casefold c.json [] request
                (forbidden_log target)
              ≡ ok records =
            subst
              (λ (xs : List Text).
                matching_lifecycle_records c.casefold c.json xs request (forbidden_log target)
                ≡ ok records)
              nothing matched in
          absurd (
            nothing_completed id (
              subst (λ (rs : List Record). CompletedOnce rs id)
                (nothing_matched records matched_nothing) once))
    ]

    -- Comments that were listed, since there is one.
    really_listed :
        (comment : ReviewComment) (w w' : W)
        → catch (owned_revision_comments c.library c.gateway request) (otherwise []) w
          ≡ (ok (comment ∷ []), w')
        → owned_revision_comments c.library c.gateway request w ≡ (ok (comment ∷ []), w')
    really_listed comment w w' h = ground (arith, h)

    concluded :
        (comment : ReviewComment) (comment_id : ℕ) (attempt : Option Text) (lines : List Text)
        (records : List Record) (w s1 s2 s3 : W)
        → owned_revision_comments c.library c.gateway request w ≡ (ok (comment ∷ []), s1)
        → HasEvidence c.library c.gateway request c.casefold (expected_of c target) comment_id s1 s2
        → catch (c.journal_lines_after cursor) (otherwise []) s2 ≡ (ok lines, s3)
        → matching_lifecycle_records c.casefold c.json lines request (forbidden_log target)
          ≡ ok records
        → completed_attempt c.iterate records ≡ ok attempt
        → Leads (λ o w'. Concluded o w w') s3 (conclude c target request cursor comment_id attempt)
    concluded comment comment_id none lines records w s1 s2 s3 listed shown read matched completed =
        same_end (λ o w'. Concluded o w w') none s3 tt
    concluded comment comment_id (some id) lines records w s1 s2 s3 listed shown read matched
          completed =
        leads (require_no_owned_resources c)
          (λ _. pure (some (record { comment_id = comment_id; attempt_id = id })))
          λ u s4 cleaned.
            let once = (completed_attempt_iff c.iterate keeps records id).0 completed in
            same_end (λ o w'. Concluded o w w')
              (some (record { comment_id = comment_id; attempt_id = id })) s4
              (record {
                s1 = s1;
                s2 = s2;
                s3 = s3;
                comment = comment;
                lines = lines;
                records = records;
                listed = listed;
                shown = shown;
                read = really_read lines records id s2 s3 read matched once;
                matched = matched;
                completed = once;
                clean_after = (clean s3).at u s4 cleaned;
              })

    commented :
        (comment : ReviewComment) (w s1 : W)
        → owned_revision_comments c.library c.gateway request w ≡ (ok (comment ∷ []), s1)
        → Leads (λ o w'. Concluded o w w') s1 (with_comment c target request cursor)
    unfolding with_comment
    commented comment w s1 listed =
        leads
          (catch
            (verify_live_review_evidence c.library c.gateway request c.casefold
              (expected_of c target))
            (λ e. raise (evidence_failed e)))
          _
          λ comment_id s2 verified.
            leads (catch (c.journal_lines_after cursor) (otherwise [])) _ λ lines s3 read.
              leads
                (lift c (
                  matching_lifecycle_records c.casefold c.json lines request
                    (forbidden_log target)))
                _
                λ records s4 matched.
                  leads (lift c (completed_attempt c.iterate records))
                    (conclude c target request cursor comment_id)
                    λ attempt s5 completed.
                      concluded comment comment_id attempt lines records w s1 s2 s5 listed
                        ((evidence c.library c.gateway request c.casefold (expected_of c target)
                            s1).at
                          comment_id s2
                          (caught
                            (verify_live_review_evidence c.library c.gateway request c.casefold
                              (expected_of c target))
                            evidence_failed comment_id s1 s2 verified))
                        (read
                          ∙ ap (λ (x : W). (ok lines, x))
                              (ap (λ p. p.1) matched ∙ ap (λ p. p.1) completed))
                        (ap (λ (p : Result (List Record) × W). p.0) matched)
                        (ap (λ (p : Result (Option Text) × W). p.0) completed)

    looked : (w : W) → Leads (λ o w'. Concluded o w w') w (look c target request cursor)
    unfolding look
    looked w =
        leads (catch (owned_revision_comments c.library c.gateway request) (otherwise []))
          (by_comments c target request cursor) λ comments s1 listed. by comments s1 listed
      where
        by :
            (comments : List ReviewComment) (s1 : W)
            → catch (owned_revision_comments c.library c.gateway request) (otherwise []) w
              ≡ (ok comments, s1)
            → Leads (λ o w'. Concluded o w w') s1 (by_comments c target request cursor comments)
        by [] s1 listed = same_end (λ o w'. Concluded o w w') none s1 tt
        by (comment ∷ []) s1 listed = commented comment w s1 (really_listed comment w s1 listed)
        by (comment ∷ next ∷ comments) s1 listed = record { at = λ o w' h. absurd (cc h) }

    module _ (poll deadline : ℕ) where
      -- The way from one state to another by looks that find nothing yet, each with a pause after it.
      pub data Waited : W → W → Type 0 where
        at_once : (w : W) → Waited w w
        later :
            {w v u t : W}
            → look c target request cursor w ≡ (ok none, v)
            → pause c target request cursor poll deadline v ≡ (ok tt, u)
            → Waited u t
            → Waited w t

      abbrev pub Watched : Option CampaignEvidence → W → W → Type 0
      Watched none w w' = Unit
      Watched (some e) w w' = (v : W) × Waited w v × Concludes e v w'

      Watched-later :
          (w v u : W)
          → look c target request cursor w ≡ (ok none, v)
          → pause c target request cursor poll deadline v ≡ (ok tt, u)
          → (o : Option CampaignEvidence) (w' : W) → Watched o u w'
          → Watched o w w'
      Watched-later w v u found paused none w' seen = tt
      Watched-later w v u found paused (some e) w' (t, waited, last) =
          (t, later found paused waited, last)

      pub watched :
          (turns : ℕ) (w : W)
          → Leads (λ o w'. Watched o w w') w (watch c target request cursor turns poll deadline)
      unfolding watch
      watched zero w = same_end (λ o w'. Watched o w w') none w tt
      watched (suc turns) w =
          let rest = watched turns in
          leads (look c target request cursor)
            (after_look c target request cursor (
              pause c target request cursor poll deadline
              >> watch c target request cursor turns poll deadline))
            λ seen s1 found. after rest seen s1 found ((looked w).at seen s1 found)
        where
          after :
              ((u : W)
                → Leads
                    (λ o w'. Watched o u w')
                    u
                    (watch c target request cursor turns poll deadline))
              → (seen : Option CampaignEvidence) (s1 : W)
              → look c target request cursor w ≡ (ok seen, s1)
              → Concluded seen w s1
              → Leads
                  (λ o w'. Watched o w w')
                  s1
                  (after_look c target request cursor
                    (pause c target request cursor poll deadline
                      >> watch c target request cursor turns poll deadline)
                    seen)
          after rest (some e) s1 found last =
              same_end (λ o w'. Watched o w w') (some e) s1 (w, at_once w, last)
          after rest none s1 found last =
              leads (pause c target request cursor poll deadline)
                (λ _. watch c target request cursor turns poll deadline)
                λ u s2 paused. record {
                  at = λ o w' h. Watched-later w s1 s2 found paused o w' ((rest s2).at o w' h);
                }
