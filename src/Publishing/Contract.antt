-- ===== src/Publishing/Contract.antt =====
-- What the publication relies on of GitHub, as its REST documentation has it: comments have distinct
-- identifiers, a listing shows them, and a mutation that raises was made or was not.
use specode_review.Base.{
  ℕ, ◌≡◌, ◌≢◌, ◌⊎◌, some, List, [], ◌∷◌, ◌++◌, Text, nat_eq, All, if◌then◌else◌,
}
use specode_review.Errors.{Result, ok, err}
use specode_review.Models.{ReviewRequest}
use specode_review.Publishing.Gateway.{ReviewComment, ReviewCommentGateway, PublicationTiming}

abbrev pub replace_body : ℕ → Text → List ReviewComment → List ReviewComment
replace_body id body [] = []
replace_body id body (c ∷ cs) =
    (if nat_eq c.id id then record c { body = body } else c) ∷ replace_body id body cs

abbrev pub HasDistinctIds : List ReviewComment → Type 0
HasDistinctIds [] = Unit
HasDistinctIds (c ∷ cs) = All (λ d. d.id ≢ c.id) cs × HasDistinctIds cs

-- A listing changes nothing, and what it returns is there.
abbrev pub Listed :
    {W : Type 0} → (W → List ReviewComment) → W → Result (List ReviewComment) × W → Type 0
Listed comments w (ok found, w') = (found ≡ comments w) × (comments w' ≡ comments w)
Listed comments w (err e, w') = comments w' ≡ comments w

-- A comment with the body, by the application.
abbrev pub IsNew : ℕ → Text → ReviewComment → Type 0
IsNew app_id body c = (c.body ≡ body) × (c.performed_via_github_app ≡ some app_id)

-- The comment that a mutation returns is the one that is there, whatever its body has become.
abbrev pub Created :
    {W : Type 0} → (W → List ReviewComment) → ℕ → Text → W → Result ReviewComment × W → Type 0
Created comments app_id body w (ok c, w') =
    (c.performed_via_github_app ≡ some app_id) × (comments w' ≡ comments w ++ c ∷ [])
Created comments app_id body w (err e, w') =
    (comments w' ≡ comments w)
    ⊎ ((c : ReviewComment) × IsNew app_id body c × (comments w' ≡ comments w ++ c ∷ []))

abbrev pub Updated :
    {W : Type 0} → (W → List ReviewComment) → ℕ → Text → W → Result ReviewComment × W → Type 0
Updated comments id body w (ok c, w') =
    (c.id ≡ id) × (comments w' ≡ replace_body id c.body (comments w))
Updated comments id body w (err e, w') =
    (comments w' ≡ comments w) ⊎ (comments w' ≡ replace_body id body (comments w))

pub record GitHubContract {W : Type 0} (gateway : ReviewCommentGateway W)
    (timing : PublicationTiming W) (comments : W → List ReviewComment) : Type 0 where
  pub distinct_ids : (w : W) → HasDistinctIds (comments w)
  pub listed :
      (request : ReviewRequest) (w : W) → Listed comments w (gateway.list_review_comments request w)
  pub created :
      (request : ReviewRequest) (body : Text) (w : W)
      → Created comments gateway.app_id body w (gateway.create_review_comment request body w)
  pub updated :
      (request : ReviewRequest) (id : ℕ) (body : Text) (w : W)
      → Updated comments id body w (gateway.update_review_comment request id body w)
  pub slept : (delay : ℕ) (w : W) → comments (timing.sleeper delay w) ≡ comments w
  pub timed : (w : W) → comments (timing.remaining_time w).1 ≡ comments w
