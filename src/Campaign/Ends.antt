-- ===== src/Campaign/Ends.antt =====
-- That a campaign ends, and what its evidence shows.
use mathlib.Core.Path.{subst}
use specode_review.Base.{
  ℕ, zero, suc, ◌+◌, ◌-◌, ◌≤◌, ◌<◌, ◌≡◌, ◌||◌, Option, none, some, List, [], ◌∷◌, arith, Text, leb,
  min, if◌then◌else◌,
}
use specode_review.Errors.{Raised, value_error, Result, ok, err}
use specode_review.Exec.{Exec, pure, raise, catch, ◌>>=◌, ◌>>◌}
use specode_review.Exec.Leads.{Leads, leads}
use specode_review.Live.{verify_live_review_evidence}
use specode_review.Models.{ReviewRequest}
use specode_review.Publishing.Gateway.{ReviewComment}
use specode_review.Publishing.Comment.{owned_revision_comments}
use specode_review.Campaign.Target.{CampaignTarget}
use specode_review.Campaign.Records.{matching_lifecycle_records, completed_attempt}
use specode_review.Campaign.Completed.{KeepsMembers}
use specode_review.Campaign.Run.{
  Campaign, CampaignEvidence, stage_of, any_of, evidence_failed, otherwise,
  require_no_owned_resources, precondition, expected_of, lift, forbidden_log, conclude,
  with_comment, by_comments, look, pause, after_look, watch, run_signed_review_campaign,
}
use specode_review.Campaign.Proven.{IsProven, Proven, proven}

-- The clock does not go back during a call, and a pause takes at least its time.
pub record IsTimed {W : Type 0} (c : Campaign W) : Type 0 where
  pub sleeps : (ms : ℕ) (w : W) → c.clock w + ms ≤ c.clock (c.sleep ms w)
  pub lists :
      (request : ReviewRequest) (w : W)
      → c.clock w ≤ c.clock (c.gateway.list_review_comments request w).1
  pub reads : (cursor : Text) (w : W) → c.clock w ≤ c.clock (c.journal_lines_after cursor w).1
  pub names : (w : W) → c.clock w ≤ c.clock (c.owned_resource_names w).1

-- A call during which the clock does not go back.
record IsForward {W A : Type 0} (c : Campaign W) (m : Exec W A) : Type 0 where
  at : (w : W) → c.clock w ≤ c.clock (m w).1

module _ {W : Type 0} (c : Campaign W) where
  forward :
      {A B : Type 0} (m : Exec W A) (f : A → Exec W B)
      → IsForward c m
      → ((a : A) → IsForward c (f a))
      → IsForward c (m >>= f)
  forward {A} {B} m f first next = record { at = λ w. go w (m w) (first.at w) }
    where
      go :
          (w : W) (p : Result A × W)
          → c.clock w ≤ c.clock p.1
          → c.clock w
            ≤ c.clock (elim p.0 as (λ _. Result B × W) [ ok a ↦ f a p.1 | err e ↦ (err e, p.1) ]).1
      go w (ok a, w1) h = omega (arith, (next a).at w1)
      go w (err e, w1) h = h

  handled :
      {A : Type 0} (m : Exec W A) (handler : Raised → Exec W A)
      → IsForward c m
      → ((e : Raised) → IsForward c (handler e))
      → IsForward c (catch m handler)
  handled {A} m handler first next = record { at = λ w. go w (m w) (first.at w) }
    where
      go :
          (w : W) (p : Result A × W)
          → c.clock w ≤ c.clock p.1
          → c.clock w
            ≤ c.clock
                (elim p.0 as (λ _. Result A × W) [ ok a ↦ (ok a, p.1) | err e ↦ handler e p.1 ]).1
      go w (ok a, w1) h = h
      go w (err e, w1) h = omega (arith, (next e).at w1)

  still : {A : Type 0} (r : W → Result A) → IsForward c (λ w. (r w, w))
  still r = record { at = λ w. omega arith }

  otherwise_still : {A : Type 0} (a : A) (e : Raised) → IsForward c (otherwise {W = W} a e)
  otherwise_still a e = record { at = λ w. ground arith }

  module _ (timed : IsTimed c) (target : CampaignTarget) (request : ReviewRequest)
      (cursor : Text) where
    owned-IsForward : IsForward c (owned_revision_comments c.library c.gateway request)
    unfolding owned_revision_comments
    owned-IsForward = record { at = λ w. ground (arith, timed.lists request w) }

    evidence-IsForward :
        IsForward c (
          verify_live_review_evidence c.library c.gateway request c.casefold (expected_of c target))
    unfolding verify_live_review_evidence
    evidence-IsForward = record { at = λ w. ground (arith, owned-IsForward.at w) }

    clean-IsForward : IsForward c (require_no_owned_resources c)
    unfolding require_no_owned_resources
    clean-IsForward = record { at = λ w. ground (arith, timed.names w) }

    conclude-IsForward :
        (comment_id : ℕ) (attempt : Option Text)
        → IsForward c (conclude c target request cursor comment_id attempt)
    conclude-IsForward comment_id none = still (λ w. ok none)
    conclude-IsForward comment_id (some id) =
        forward (require_no_owned_resources c)
          (λ _. pure (some (record { comment_id = comment_id; attempt_id = id }))) clean-IsForward
          (λ _. record { at = λ w. omega arith })

    comment-IsForward : IsForward c (with_comment c target request cursor)
    unfolding with_comment
    comment-IsForward =
        let shown =
          verify_live_review_evidence c.library c.gateway request c.casefold
            (expected_of c target) in
        forward (catch shown (λ e. raise (evidence_failed e))) _
          (handled shown (λ e. raise (evidence_failed e)) evidence-IsForward
            (λ e. still (λ w. err _)))
          λ comment_id.
            forward (catch (c.journal_lines_after cursor) (otherwise [])) _
              (handled (c.journal_lines_after cursor) (otherwise [])
                (record { at = timed.reads cursor }) (otherwise_still []))
              λ lines.
                forward
                  (lift c (
                    matching_lifecycle_records c.casefold c.json lines request
                      (forbidden_log target)))
                  _ (record { at = λ w. omega arith })
                  λ records.
                    forward (lift c (completed_attempt c.iterate records))
                      (conclude c target request cursor comment_id)
                      (record { at = λ w. omega arith }) (conclude-IsForward comment_id)

    by-IsForward :
        (comments : List ReviewComment) → IsForward c (by_comments c target request cursor comments)
    by-IsForward [] = still (λ w. ok none)
    by-IsForward (comment ∷ []) = comment-IsForward
    by-IsForward (comment ∷ next ∷ comments) = still (λ w. err _)

    look-IsForward : IsForward c (look c target request cursor)
    unfolding look
    look-IsForward =
        forward (catch (owned_revision_comments c.library c.gateway request) (otherwise []))
          (by_comments c target request cursor)
          (handled (owned_revision_comments c.library c.gateway request) (otherwise [])
            owned-IsForward (otherwise_still []))
          by-IsForward

    abbrev Found : Option CampaignEvidence → W → Type 0
    Found o w' = (e : CampaignEvidence) × (o ≡ some e)

    -- A loop with a turn for each millisecond that is left, and one more, finds something or raises.
    watch-Found :
        (turns poll deadline : ℕ) (w : W)
        → 0 < poll
        → deadline - c.clock w < turns
        → Leads Found w (watch c target request cursor turns poll deadline)
    unfolding watch
    watch-Found zero poll deadline w pos enough = absurd (omega arith)
    watch-Found (suc turns) poll deadline w pos enough =
        let rest = watch-Found turns poll deadline in
        leads (look c target request cursor)
          (after_look c target request cursor (
            pause c target request cursor poll deadline
            >> watch c target request cursor turns poll deadline))
          λ seen w1 found. after rest seen w1 (ground (arith, look-IsForward.at w, found))
      where
        after :
            ((w2 : W)
              → 0 < poll
              → deadline - c.clock w2 < turns
              → Leads Found w2 (watch c target request cursor turns poll deadline))
            → (seen : Option CampaignEvidence) (w1 : W) → c.clock w ≤ c.clock w1
            → Leads Found w1 (
                after_look c target request cursor
                  (pause c target request cursor poll deadline
                    >> watch c target request cursor turns poll deadline)
                  seen)
        after rest (some e) w1 later = record { at = λ o w' h. (e, cc) }
        after rest none w1 later =
            leads (pause c target request cursor poll deadline)
              (λ _. watch c target request cursor turns poll deadline)
              λ u w2 paused.
                rest w2 pos
                  (ground (arith, paused, timed.sleeps (min poll (deadline - c.clock w1)) w1))

  abbrev FoundOne : Option CampaignEvidence → W → Type 0
  FoundOne o w' = (e : CampaignEvidence) × (o ≡ some e)

  run-Found :
      (timed : IsTimed c) (target : CampaignTarget) (installation_id timeout poll : ℕ) (w : W)
      → Leads FoundOne w (run_signed_review_campaign c target installation_id timeout poll)
  unfolding run_signed_review_campaign
  run-Found timed target installation_id timeout poll w =
      let bounds : Result (Unit {0}) =
        if leb installation_id 0 || (leb timeout 0 || leb poll 0) then err value_error else ok tt in
      leads (lift c bounds) _ λ u w1 bounded.
        leads
          (catch (precondition c target installation_id) (λ e. raise (stage_of "precondition" e))) _
          λ request w2 _. leads (require_no_owned_resources c) _ λ _ w3 _.
            leads (catch c.journal_cursor (λ e. raise (any_of "signed_event" e))) _ λ cursor w4 _.
              leads
                (catch (c.trigger_reopened_event target.repository target.pr_number)
                  (λ e. raise (any_of "signed_event" e)))
                _
                λ _ w5 _.
                  leads (λ (w : W). (ok (c.clock w), w))
                    (λ now. watch c target request cursor (suc timeout) poll (now + timeout))
                    λ now w6 read.
                      let same : now ≡ c.clock w6 = cc in
                      watch-Found timed target request cursor (suc timeout) poll (now + timeout) w6
                        (ground (arith, bounded)) (omega (arith, same))

  -- Where the clock does not go back and an iteration goes through the members of a set, a campaign that
  -- returns has not come to the end of its fuel: it returns evidence, and went through its stages one
  -- after the other. The service was installed; the pull request was at the expected revision and had no
  -- comment of the application; the host was clean; the journal was marked and the event triggered; the
  -- comments were looked at, with pauses, until there was one; it shows what is expected, the journal
  -- from the mark on shows the attempt completed once, and in the last call the host was clean again.
  pub campaign-IsProven :
      (timed : IsTimed c) (keeps : KeepsMembers c.iterate) (target : CampaignTarget)
      (installation_id timeout poll : ℕ) (o : Option CampaignEvidence) (w w' : W)
      → run_signed_review_campaign c target installation_id timeout poll w ≡ (ok o, w')
      → (e : CampaignEvidence) × (o ≡ some e)
        × IsProven c keeps target installation_id timeout poll e w w'
  campaign-IsProven timed keeps target installation_id timeout poll o w w' h =
      let (e, found) = (run-Found timed target installation_id timeout poll w).at o w' h in
      let shown = (proven c keeps target installation_id timeout poll w).at o w' h in
      (e, found, subst (λ x. Proven c keeps target installation_id timeout poll x w w') found shown)
