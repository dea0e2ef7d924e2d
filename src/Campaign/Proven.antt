-- ===== src/Campaign/Proven.antt =====
-- src/specode_review/campaign.py: the stages of a campaign, each from the state in which the one
-- before it ended.
use mathlib.Core.Path.{subst}
use specode_review.Base.{
  ℕ, suc, ◌+◌, ◌≡◌, sym, ◌∙◌, ap, ◌||◌, Option, none, some, Text, leb, if◌then◌else◌,
}
use specode_review.Errors.{value_error, Result, ok, err}
use specode_review.Exec.{pure, raise, catch}
use specode_review.Exec.Leads.{Leads, leads}
use specode_review.Live.{require_fresh_live_review}
use specode_review.Live.Evidence.{IsFresh, fresh}
use specode_review.Models.{ReviewRequest}
use specode_review.Campaign.Target.{CampaignTarget, expected_revision}
use specode_review.Campaign.Completed.{KeepsMembers}
use specode_review.Campaign.Run.{
  Campaign, CampaignEvidence, stage_of, any_of, require_no_owned_resources, precondition, lift,
  watch, run_signed_review_campaign,
}
use specode_review.Campaign.Sound.{caught, IsClean, clean, Concludes, Waited, Watched, watched}

module _ {W : Type 0} (c : Campaign W) where
  module _ (keeps : KeepsMembers c.iterate) (target : CampaignTarget)
      (installation_id timeout poll : ℕ) where
    -- A campaign with its evidence, each stage from the state in which the one before it ended.
    pub record IsProven (e : CampaignEvidence) (w w' : W) : Type 0 where
      pub s1 : W
      pub s2 : W
      pub s3 : W
      pub s4 : W
      pub s5 : W
      pub s6 : W
      pub s7 : W
      pub request : ReviewRequest
      pub cursor : Text
      pub installed : c.require_installed_service w ≡ (ok tt, s1)
      pub requested : c.review_request target.pr_number installation_id s1 ≡ (ok request, s2)
      pub fresh : IsFresh c.library c.gateway request (expected_revision target) s2 s3
      pub clean_before : IsClean c s3 s4
      pub cursor_read : c.journal_cursor s4 ≡ (ok cursor, s5)
      pub triggered : c.trigger_reopened_event target.repository target.pr_number s5 ≡ (ok tt, s6)
      pub waited : Waited c keeps target request cursor poll (c.clock s6 + timeout) s6 s7
      pub concludes : Concludes c keeps target request cursor e s7 w'

    -- What comes before the event.
    abbrev Prepared : ReviewRequest → W → W → Type 0
    Prepared request w w' =
        (s1 : W) × (s2 : W) × (c.require_installed_service w ≡ (ok tt, s1))
        × (c.review_request target.pr_number installation_id s1 ≡ (ok request, s2))
        × IsFresh c.library c.gateway request (expected_revision target) s2 w'

    prepared :
        (w : W)
        → Leads (λ request w'. Prepared request w w') w (precondition c target installation_id)
    unfolding precondition
    prepared w = leads c.require_installed_service _ λ _ s1 installed.
        leads (c.review_request target.pr_number installation_id) _ λ request s2 requested.
          leads (require_fresh_live_review c.library c.gateway request (expected_revision target))
            (λ _. pure request)
            λ u s3 checked. record {
              at = λ q w' h.
                  let same : request ≡ q = cc in
                  let end : s3 ≡ w' = ap (λ p. p.1) h in
                  subst (λ (x : ReviewRequest). Prepared x w w') same
                    (
                      s1,
                      s2,
                      installed,
                      requested,
                      subst (IsFresh c.library c.gateway request (expected_revision target) s2) end
                          ((fresh c.library c.gateway request (expected_revision target) s2).at u s3
                            checked),
                    );
            }

    abbrev pub Proven : Option CampaignEvidence → W → W → Type 0
    Proven none w w' = Unit
    Proven (some e) w w' = IsProven e w w'

    Proven-of :
        (request : ReviewRequest) (cursor : Text) (w s3 s4 s5 s6 : W)
        → Prepared request w s3
        → IsClean c s3 s4
        → c.journal_cursor s4 ≡ (ok cursor, s5)
        → c.trigger_reopened_event target.repository target.pr_number s5 ≡ (ok tt, s6)
        → (o : Option CampaignEvidence) (w' : W)
        → Watched c keeps target request cursor poll (c.clock s6 + timeout) o s6 w'
        → Proven o w w'
    Proven-of request cursor w s3 s4 s5 s6 ready clean_ read triggered none w' seen = tt
    Proven-of request cursor w s3 s4 s5 s6 (s1, s2, installed, requested, fresh_) clean_ read
          triggered (some e) w' (s7, waited, last) =
        record {
          s1 = s1;
          s2 = s2;
          s3 = s3;
          s4 = s4;
          s5 = s5;
          s6 = s6;
          s7 = s7;
          request = request;
          cursor = cursor;
          installed = installed;
          requested = requested;
          fresh = fresh_;
          clean_before = clean_;
          cursor_read = read;
          triggered = triggered;
          waited = waited;
          concludes = last;
        }

    pub proven :
        (w : W)
        → Leads
            (λ o w'. Proven o w w')
            w
            (run_signed_review_campaign c target installation_id timeout poll)
    unfolding run_signed_review_campaign
    proven w =
        let bounds : Result (Unit {0}) =
          if leb installation_id 0 || (leb timeout 0 || leb poll 0)
          then err value_error
          else ok tt in
        leads (lift c bounds) _ λ _ w1 started.
          leads
            (catch (precondition c target installation_id) (λ e. raise (stage_of "precondition" e)))
            _
            λ request w2 checked. leads (require_no_owned_resources c) _ λ u w3 cleaned.
              leads (catch c.journal_cursor (λ e. raise (any_of "signed_event" e))) _
                λ cursor w4 read.
                  leads
                    (catch (c.trigger_reopened_event target.repository target.pr_number)
                      (λ e. raise (any_of "signed_event" e)))
                    _
                    λ _ w5 triggered.
                      leads (λ (w : W). (ok (c.clock w), w))
                        (λ now. watch c target request cursor (suc timeout) poll (now + timeout))
                        λ now w6 timed. record {
                          at = λ o w7 h.
                              let still : w5 ≡ w6 = ap (λ p. p.1) timed in
                              let same : now ≡ c.clock w6 = cc in
                              let start : w ≡ w1 = ap (λ p. p.1) started in
                              let ready = (prepared w1).at request w2 (
                                caught (precondition c target installation_id)
                                  (stage_of "precondition") request w1 w2 checked) in
                              Proven-of request cursor w w2 w3 w4 w6
                                (subst (λ (x : W). Prepared request x w2) (sym start) ready)
                                ((clean c w2).at u w3 cleaned)
                                (caught c.journal_cursor (any_of "signed_event") cursor w3 w4 read)
                                (caught
                                    (c.trigger_reopened_event target.repository target.pr_number)
                                    (any_of "signed_event") tt w4 w5 triggered
                                  ∙ ap (λ (x : W). (ok tt, x)) still)
                                o w7
                                (subst
                                  (λ (n : ℕ).
                                    Watched c keeps target request cursor poll (n + timeout) o w6
                                      w7)
                                  same
                                  ((watched c keeps target request cursor poll (now + timeout)
                                      (suc timeout) w6).at
                                    o w7 h));
                        }
