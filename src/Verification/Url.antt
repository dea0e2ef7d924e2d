-- ===== src/Verification/Url.antt =====
-- The URL of the webhook in src/specode_review/verification.py. `urlsplit` is a parameter, which
-- raises a `ValueError` for what is no URL.
use specode_review.Base.{
  ℕ, Bool, true, false, not, ◌&&◌, ◌||◌, Option, none, some, ◌++◌, Text, text, text_equal, ◌==◌,
  length, ltb, is_empty, if◌then◌else◌,
}
use specode_review.Errors.{Raised, value_error, webhook_mismatch_error, Result, ok, err}

-- `urlsplit(value)`
pub record SplitUrl : Type 0 where
  pub scheme : Text
  pub netloc : Text
  pub path : Text
  pub query : Text
  pub fragment : Text
  pub username : Option Text
  pub password : Option Text

abbrev is_none : Option Text → Bool
is_none none = true
is_none (some s) = false

abbrev safe_url_max_chars : ℕ
safe_url_max_chars = 2048

-- The URL of a webhook of the service.
unfoldable pub is_webhook_url : SplitUrl → Bool
is_webhook_url url =
    (url.scheme == text "https")
    && (not (is_empty url.netloc)
        && (is_none url.username
            && (is_none url.password
                && ((url.path == text "/webhooks/github")
                    && (is_empty url.query && is_empty url.fragment)))))

module _ (urlsplit : Text → Result SplitUrl) where
  -- `_safe_webhook_url`
  unfoldable pub safe_webhook_url : Text → Result Text
  unfolding is_webhook_url
  safe_webhook_url value =
      if is_empty value || ltb safe_url_max_chars (length value)
      then ok (text "(invalid)")
      else elim (urlsplit value) as (λ _. Result Text) [
        | err e ↦ err e
        | ok url ↦ ok (if is_webhook_url url then value else text "(invalid)")
      ]

  -- `_public_health_url`
  unfoldable pub public_health_url : Text → Result Text
  public_health_url webhook_url = elim (urlsplit webhook_url) as (λ _. Result Text) [
    | err e ↦ err e
    | ok url ↦ ok (url.scheme ++ text "://" ++ url.netloc ++ text "/health/ready")
  ]

  abbrev mismatch_of : Result Text → Result Text → Raised
  mismatch_of (err e) expected = e
  mismatch_of (ok current) (err e) = e
  mismatch_of (ok current) (ok expected) = webhook_mismatch_error current expected

  -- `WebhookMismatchError`, or what its constructor raises.
  unfoldable pub webhook_mismatch : (current expected : Text) → Raised
  unfolding safe_webhook_url
  webhook_mismatch current expected =
      if ltb safe_url_max_chars (length current) || ltb safe_url_max_chars (length expected)
      then value_error
      else mismatch_of (safe_webhook_url current) (safe_webhook_url expected)
