-- ===== src/Github/Complete.antt =====
-- A listing that returns has read every page.
use Prim.Native.String.{String}
use mathlib.Core.Path.{subst}
use specode_review.Base.{
  ℕ, zero, suc, ◌≡◌, ◌≢◌, ◌⊎◌, ◌↔◌, nat_equal, refl, sym, ◌∙◌, Bool, true, false, Option, none,
  some, List, [], ◌∷◌, ◌++◌, arith, Text,
}
use specode_review.Errors.{GitHubOperation, github_mutation_error, Result, ok, err}
use specode_review.Exec.{Exec}
use specode_review.Publishing.Gateway.{ReviewComment}
use specode_review.Github.{
  Reply, answered, timed_out, http_failed, Url, fetch, list_pages, is_review_comment_mutation,
  is_transient, request_result,
}

-- The pages from a path on, up to one that names no next page, together.
pub data Pages {W : Type 0} (get : Text → Exec W Reply) (base_url : Url) (expected_path : Text)
    : Text → W → List ReviewComment → W → Type 0 where
  last :
      {path : Text} {w w' : W} {page : List ReviewComment}
      → fetch get base_url expected_path path w ≡ (ok (page, none), w')
      → Pages get base_url expected_path path w page w'
  more :
      {path next : Text} {w w1 w' : W} {page rest : List ReviewComment}
      → fetch get base_url expected_path path w ≡ (ok (page, some next), w1)
      → Pages get base_url expected_path next w1 rest w'
      → Pages get base_url expected_path path w (page ++ rest) w'

append_assoc : (a b c : List ReviewComment) → (a ++ b) ++ c ≡ a ++ (b ++ c)
append_assoc [] b c = refl
append_assoc (x ∷ a) b c = cc (append_assoc a b c)

module _ {W : Type 0} (get : Text → Exec W Reply) (base_url : Url) (expected_path : Text) where
  -- A listing that returns, whatever its limit of pages, has read every page from the first on to
  -- one that names no next page, and returns the comments of them all in their order.
  pub list_pages-Pages :
      (turns : ℕ) (path : Text) (comments found : List ReviewComment) (w w' : W)
      → list_pages get base_url expected_path turns (some path) comments w ≡ (ok found, w')
      → (all : List ReviewComment) × (found ≡ comments ++ all)
        × Pages get base_url expected_path path w all w'
  unfolding list_pages
  list_pages-Pages zero path comments found w w' h = absurd (cc h)
  list_pages-Pages (suc turns) path comments found w w' h =
      go (fetch get base_url expected_path path w) refl h (list_pages-Pages turns)
    where
      go :
          (p : Result (List ReviewComment × Option Text) × W)
          → fetch get base_url expected_path path w ≡ p
          → (elim p.0 as (λ _. Result (List ReviewComment) × W) [
            | ok a ↦ list_pages get base_url expected_path turns a.1 (comments ++ a.0) p.1
            | err e ↦ (err e, p.1)
          ]
              ≡ (ok found, w'))
          → ((path : Text) (comments found : List ReviewComment) (w w' : W)
              → list_pages get base_url expected_path turns (some path) comments w ≡ (ok found, w')
              → (all : List ReviewComment) × (found ≡ comments ++ all)
                × Pages get base_url expected_path path w all w')
          → (all : List ReviewComment) × (found ≡ comments ++ all)
            × Pages get base_url expected_path path w all w'
      go (err e, w1) fetched k next = absurd (cc k)
      go (ok (page, none), w1) fetched k next =
          let joined : comments ++ page ≡ found = cc k in
          let stopped : w1 ≡ w' = cc k in
          (
            page,
            sym joined,
            last (
                subst (λ x. fetch get base_url expected_path path w ≡ (ok (page, none), x)) stopped
                  fetched),
          )
      go (ok (page, some path'), w1) fetched k next =
          let (rest, found_rest, pages) = next path' (comments ++ page) found w1 w' k in
          (page ++ rest, found_rest ∙ append_assoc comments page rest, more fetched pages)

-- A call fails, or its status is another.
abbrev pub IsUnexpected : ℕ → Reply → Type 0
IsUnexpected status (answered response) = response.status_code ≢ status
IsUnexpected status timed_out = Unit
IsUnexpected status http_failed = Unit

-- The call failed, or its status or its headers ask for another try.
abbrev pub IsAmbiguous : Reply → Type 0
IsAmbiguous (answered response) =
    (is_transient response.status_code ≡ true) ⊎ (response.retry_after ≢ none)
IsAmbiguous timed_out = Unit
IsAmbiguous http_failed = Unit

-- Whether `GitHubMutationError` is raised.
abbrev pub is_reconciled : {A : Type 0} → Result A → Bool
is_reconciled (err (github_mutation_error f)) = true
is_reconciled _ = false

-- An error that is reconciled is raised exactly for a mutation of a comment whose call failed or
-- whose status is not the expected one, and whose call failed or whose status or headers ask for
-- another try.
pub request_mutation_iff :
    (operation : GitHubOperation) (stage : String) (status : ℕ) (reply : Reply)
    → (is_reconciled (request_result operation stage status reply) ≡ true) ↔ (
        (is_review_comment_mutation operation ≡ true)
        × IsUnexpected status reply
        × IsAmbiguous reply)
unfolding request_result
request_mutation_iff operation stage status timed_out = ground arith
request_mutation_iff operation stage status http_failed = ground arith
request_mutation_iff operation stage status (answered response) = ground arith
