-- ===== src/Runner/Recorded.antt =====
-- Collaborators of a run whose calls are recorded. What each answers may depend on all calls before
-- it, so that every behaviour of a deterministic or a hostile collaborator is one of these.
use specode_review.Base.{◌≡◌, Bool, true, false, List, [], ◌∷◌, Text, any}
use specode_review.Errors.{Result, ok, err}
use specode_review.Exec.{Exec}
use specode_review.Models.{ReviewRequest, ReviewResult}
use specode_review.Publishing.Publish.{PublicationReceipt}
use specode_review.Runner.Run.{Collaborators, CleanupOutcome, PublicationOutcome}

-- The calls, with whether they returned.
pub data Call : Type 0 where
  allocated opened adapted constructed reviewed cleaned published closed : Bool → Call
  logged_cleanup : CleanupOutcome → Call
  logged_publication : PublicationOutcome → Call

-- Newest first.
abbrev pub History : Type 0
History = List Call

abbrev pub succeeded : {A : Type 0} → Result A → Bool
succeeded (ok a) = true
succeeded (err e) = false

abbrev pub record_call : {A : Type 0} → (Bool → Call) → (History → Result A) → Exec History A
record_call event answer h = let r = answer h in (r, event (succeeded r) ∷ h)

pub record Answers : Type 0 where
  pub for_attempt : Text → History → Result (Unit {0})
  pub github_client : Text → History → Result (Unit {0})
  pub candidate_adapter : Text → History → Result (Unit {0})
  pub new_reviewer : Text → History → Result (Unit {0})
  pub review : ReviewRequest → History → Result ReviewResult
  pub cleanup : Text → History → Result (Unit {0})
  pub publish : ReviewRequest → ReviewResult → History → Result PublicationReceipt
  pub close : History → Result (Unit {0})

abbrev pub recorded : Answers → Collaborators History
recorded a = record {
  for_attempt = λ attempt_id. record_call allocated (a.for_attempt attempt_id);
  github_client = λ repository. record_call opened (a.github_client repository);
  candidate_adapter = λ attempt_id. record_call adapted (a.candidate_adapter attempt_id);
  new_reviewer = λ repository. record_call constructed (a.new_reviewer repository);
  review = λ request. record_call reviewed (a.review request);
  cleanup = λ attempt_id. record_call cleaned (a.cleanup attempt_id);
  publish = λ request result. record_call published (a.publish request result);
  close = record_call closed a.close;
  emit_cleanup = λ outcome h. logged_cleanup outcome ∷ h;
  emit_publication = λ outcome h. logged_publication outcome ∷ h;
}

abbrev allocates : Call → Bool
allocates (allocated done) = done
allocates _ = false

abbrev opens : Call → Bool
opens (opened done) = done
opens _ = false

abbrev cleans : Call → Bool
cleans (cleaned done) = done
cleans _ = false

abbrev tries_to_clean : Call → Bool
tries_to_clean (cleaned done) = true
tries_to_clean _ = false

abbrev publishes : Call → Bool
publishes (published done) = done
publishes _ = false

abbrev closes : Call → Bool
closes (closed done) = true
closes _ = false

-- The attempt's resources were allocated, its client was opened, a cleanup was confirmed or at least
-- tried, the review was published, the client's `close` was called.
abbrev pub was_allocated : History → Bool
was_allocated = any allocates

abbrev pub was_opened : History → Bool
was_opened = any opens

abbrev pub was_cleaned : History → Bool
was_cleaned = any cleans

abbrev pub cleanup_tried : History → Bool
cleanup_tried = any tries_to_clean

abbrev pub was_published : History → Bool
was_published = any publishes

abbrev pub close_called : History → Bool
close_called = any closes

-- Every call of the publication, also one that raises, comes after a confirmed cleanup.
abbrev pub CleanedFirst : History → Type 0
CleanedFirst [] = Unit
CleanedFirst (published done ∷ h) = (was_cleaned h ≡ true) × CleanedFirst h
CleanedFirst (_ ∷ h) = CleanedFirst h
