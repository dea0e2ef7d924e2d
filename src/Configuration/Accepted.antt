-- ===== src/Configuration/Accepted.antt =====
-- What an environment that is accepted gives the other parts, and what is raised of one that is not.
use mathlib.Core.Path.{subst}
use Prim.Native.String.{String}
use specode_review.Base.{
  ℕ, ◌⊎◌, ◌≤◌, ◌<◌, ◌≡◌, refl, ap, Bool, true, false, ◌&&◌, Option, none, some, [], ◌∷◌, arith,
  Text, text, text_equal, ◌==◌, length, leb, is_empty, Bool-cases, inl, inr,
}
use specode_review.Base.Dict.{lookup}
use specode_review.Errors.{Raised, configuration_error, Result, ok, err}
use specode_review.Environment.{Environment}
use specode_review.Core.Diff.{strip}
use specode_review.Lifecycle.{ReviewLifecycle, new_lifecycle}
use specode_review.Verification.Url.{SplitUrl, is_webhook_url}
use specode_review.Configuration.{
  and_then, ReasoningEffort, reasoning_effort_of, CodexExecutionPolicy, is_model,
  codex_execution_policy, sandbox_resource_limits, AttemptSettings, is_sandbox_prefix,
  attempt_settings, ProductionPaths, production_paths, ProductionServiceSettings, attempt,
}
use specode_review.Configuration.Load.{
  valid, int_of, required, required_value, positive, positive_of, positive_int, effort_or_invalid,
  is_log_level, secret_of, url_of, model_of, effort_of, concurrency_of, level_of, from_environment,
}

module _ (urlsplit : Text → Result SplitUrl) (upper : Text → Text) where
  abbrev pub IsConfigurationError : Raised → Type 0
  IsConfigurationError e = (name : String) × (e ≡ configuration_error name)

  -- That, or what was raised of a URL when it was split.
  abbrev pub IsRefusal : Raised → Type 0
  IsRefusal e = IsConfigurationError e ⊎ ((url : Text) × (urlsplit url ≡ err e))

  -- A reader that gives a value with `P`, or is refused.
  record Yields {A : Type 0} (P : A → Type 0) (r : Result A) : Type 0 where
    good : (a : A) → r ≡ ok a → P a
    bad : (e : Raised) → r ≡ err e → IsRefusal e

  and_then_next :
      {A B : Type 0} {P : A → Type 0} {Q : B → Type 0} (r : Result A) (f : A → Result B)
      → Yields P r
      → ((a : A) → P a → Yields Q (f a))
      → Yields Q (and_then r f)
  and_then_next (ok a) f first next = next a (first.good a refl)
  and_then_next (err e) f first next = record {
    good = λ b h. absurd (cc h);
    bad = λ x h. first.bad x (cc h);
  }

  value_of : {A : Type 0} → A → Result A → A
  value_of a (ok x) = x
  value_of a (err e) = a

  given : {A : Type 0} {P : A → Type 0} (a : A) → P a → Yields P (ok a)
  unfolding value_of
  given {P} a p = record { good = λ b h. subst P (ap (value_of a) h) p; bad = λ e h. absurd (cc h) }

  urlsplit-Yields :
      (url : Text) → Yields (λ (parsed : SplitUrl). urlsplit url ≡ ok parsed) (urlsplit url)
  urlsplit-Yields url = record { good = λ parsed h. h; bad = λ e h. inr (url, h) }

  valid-Yields :
      (name : String) (test : Bool) → Yields (λ (u : Unit {0}). test ≡ true) (valid name test)
  valid-Yields name true = given tt refl
  valid-Yields name false = record { good = λ u h. absurd (cc h); bad = λ e h. inl (name, cc h) }

  required-Yields :
      (environment : Environment) (name : String)
      → Yields (λ s. is_empty s ≡ false) (required environment name)
  unfolding required
  required-Yields environment name = go (lookup (text name) environment)
    where
      go : (o : Option Text) → Yields (λ s. is_empty s ≡ false) (required_value name o)
      go none = record { good = λ a h. absurd (cc h); bad = λ e h. inl (name, cc h) }
      go (some []) = record { good = λ a h. absurd (cc h); bad = λ e h. inl (name, cc h) }
      go (some (c ∷ s)) = given (c ∷ s) refl

  positive-Yields : (name : String) (o : Option ℕ) → Yields (λ n. 0 < n) (positive name o)
  positive-Yields name none = record { good = λ a h. absurd (cc h); bad = λ e h. inl (name, cc h) }
  positive-Yields name (some n) = elim (Bool-cases (leb n 0)) [
    | inl zero_or_less ↦
        rw zero_or_less (record { good = λ a h. absurd (cc h); bad = λ e h. inl (name, cc h) })
    | inr more ↦ rw more (given n (ground (arith, more)))
  ]

  app_id-Yields :
      (environment : Environment) (name : String)
      → Yields (λ n. 0 < n) (positive_int environment name none)
  unfolding positive_int
  app_id-Yields environment name = go (lookup (text name) environment)
    where
      go : (o : Option Text) → Yields (λ n. 0 < n) (positive_of name none o)
      go none = record { good = λ a h. absurd (cc h); bad = λ e h. inl (name, cc h) }
      go (some raw) = positive-Yields name (int_of raw)

  limit-Yields :
      (environment : Environment) (name : String) (default : ℕ)
      → 0 < default
      → Yields (λ n. 0 < n) (positive_int environment name (some default))
  unfolding positive_int
  limit-Yields environment name default pos = go (lookup (text name) environment)
    where
      go : (o : Option Text) → Yields (λ n. 0 < n) (positive_of name (some default) o)
      go none = given default pos
      go (some raw) = positive-Yields name (int_of raw)

  effort-Yields :
      (o : Option ReasoningEffort)
      → Yields (λ (r : ReasoningEffort). Unit {0}) (effort_or_invalid o)
  effort-Yields none = record {
    good = λ a h. tt;
    bad = λ e h. inl ("OPENAI_REASONING_EFFORT", cc h);
  }
  effort-Yields (some r) = given r tt

  reasoning-Yields :
      (environment : Environment)
      → Yields
          (λ (r : ReasoningEffort). Unit {0})
          (and_then
            (required environment "OPENAI_REASONING_EFFORT")
            λ value. effort_or_invalid (reasoning_effort_of value))
  reasoning-Yields environment =
      and_then_next (required environment "OPENAI_REASONING_EFFORT") _
        (required-Yields environment "OPENAI_REASONING_EFFORT")
        λ value _. effort-Yields (reasoning_effort_of value)

  -- A URL with the route of the webhook.
  abbrev pub IsRouted : Text → Type 0
  IsRouted url = (parsed : SplitUrl) × (urlsplit url ≡ ok parsed) × (is_webhook_url parsed ≡ true)

  -- What the settings of an accepted environment are good for.
  pub record IsAccepted (paths : ProductionPaths) (s : ProductionServiceSettings) : Type 0 where
    pub secret_long : 32 ≤ length s.webhook_secret
    pub secret_short : length s.webhook_secret ≤ 1024
    pub routed : IsRouted s.public_webhook_url
    pub modelled : is_model s.codex_execution.model ≡ true
    pub identified : 0 < s.app_id
    pub levelled : is_log_level s.log_level ≡ true
    pub placed : s.paths ≡ paths
    pub lifecycle : (l : ReviewLifecycle) × (new_lifecycle s.max_concurrent_reviews ≡ ok l)
    pub has_attempt : (a : AttemptSettings) × (attempt s ≡ ok a)

  prefix_of :
      (p : ProductionPaths)
      → production_paths p ≡ ok p
      → is_sandbox_prefix p.sandbox_name_prefix ≡ true
  unfolding production_paths
  prefix_of p h = ground (arith, h)

  attempted_of :
      (s : ProductionServiceSettings)
      → is_sandbox_prefix s.paths.sandbox_name_prefix ≡ true
      → (a : AttemptSettings) × (attempt s ≡ ok a)
  unfolding attempt attempt_settings sandbox_resource_limits
  attempted_of s good = rw good (_, refl)

  lifecycle_of : (n : ℕ) → 0 < n → leb n 5 ≡ true → (l : ReviewLifecycle) × (new_lifecycle n ≡ ok l)
  unfolding new_lifecycle
  lifecycle_of n pos small =
      let in_range : leb 1 n && leb n 5 ≡ true = ground (arith, pos, small) in rw in_range (_, refl)

  secret-Yields :
      (environment : Environment)
      → Yields (λ s. (32 ≤ length s) × (length s ≤ 1024)) (secret_of urlsplit upper environment)
  secret-Yields environment =
      and_then_next (required environment "GITHUB_WEBHOOK_SECRET") _
        (required-Yields environment "GITHUB_WEBHOOK_SECRET")
        λ s _.
          and_then_next (valid "GITHUB_WEBHOOK_SECRET" (leb 32 (length s) && leb (length s) 1024)) _
            (valid-Yields "GITHUB_WEBHOOK_SECRET" (leb 32 (length s) && leb (length s) 1024))
            λ u h. given s (ground (arith, h))

  url-Yields : (environment : Environment) → Yields IsRouted (url_of urlsplit upper environment)
  url-Yields environment =
      and_then_next (required environment "PUBLIC_WEBHOOK_URL") _
        (required-Yields environment "PUBLIC_WEBHOOK_URL")
        λ url _. and_then_next (urlsplit url) _ (urlsplit-Yields url) λ parsed split.
          and_then_next (valid "PUBLIC_WEBHOOK_URL" (is_webhook_url parsed)) _
            (valid-Yields "PUBLIC_WEBHOOK_URL" (is_webhook_url parsed))
            λ u h. given url (parsed, split, h)

  model-Yields :
      (environment : Environment)
      → Yields (λ m. is_model m ≡ true) (model_of urlsplit upper environment)
  model-Yields environment =
      and_then_next (required environment "CODEX_MODEL") _
        (required-Yields environment "CODEX_MODEL")
        λ m full.
          and_then_next (valid "CODEX_MODEL" (leb (length m) 128 && (strip m == m))) _
            (valid-Yields "CODEX_MODEL" (leb (length m) 128 && (strip m == m)))
            λ u h. given m (cc (full, h))

  concurrency-Yields :
      (environment : Environment)
      → Yields
          (λ n. (l : ReviewLifecycle) × (new_lifecycle n ≡ ok l))
          (concurrency_of urlsplit upper environment)
  concurrency-Yields environment =
      and_then_next (positive_int environment "MAX_CONCURRENT_REVIEWS" (some 3)) _
        (limit-Yields environment "MAX_CONCURRENT_REVIEWS" 3 (omega arith))
        λ n pos.
          and_then_next (valid "MAX_CONCURRENT_REVIEWS" (leb n 5)) _
            (valid-Yields "MAX_CONCURRENT_REVIEWS" (leb n 5)) λ u h. given n (lifecycle_of n pos h)

  level-Yields :
      (environment : Environment)
      → Yields (λ l. is_log_level l ≡ true) (level_of urlsplit upper environment)
  level-Yields environment =
      and_then_next (valid "LOG_LEVEL" _) _ (valid-Yields "LOG_LEVEL" _) λ u h. given _ h

  policy-Yields :
      (p : CodexExecutionPolicy)
      → is_model p.model ≡ true
      → Yields (λ (q : CodexExecutionPolicy). is_model q.model ≡ true) (codex_execution_policy p)
  unfolding codex_execution_policy
  policy-Yields p h = rw h (given p h)

  from_environment-Yields :
      (paths : ProductionPaths) (environment : Environment)
      → production_paths paths ≡ ok paths
      → Yields (IsAccepted paths) (from_environment urlsplit upper paths environment)
  unfolding from_environment
  from_environment-Yields paths environment h =
      and_then_next (secret_of urlsplit upper environment) _ (secret-Yields environment)
        λ secret sized.
          and_then_next (url_of urlsplit upper environment) _ (url-Yields environment) λ url routed.
            and_then_next (model_of urlsplit upper environment) _ (model-Yields environment)
              λ model named.
                and_then_next (effort_of urlsplit upper environment) _
                  (reasoning-Yields environment)
                  λ effort _.
                    and_then_next (concurrency_of urlsplit upper environment) _
                      (concurrency-Yields environment)
                      λ concurrency started.
                        and_then_next (level_of urlsplit upper environment) _
                          (level-Yields environment)
                          λ level levelled.
                            and_then_next (positive_int environment "GITHUB_APP_ID" none) _
                              (app_id-Yields environment "GITHUB_APP_ID")
                              λ app_id pos.
                                and_then_next
                                  (codex_execution_policy
                                    (record { model = model; reasoning_effort = effort }))
                                  _
                                  (policy-Yields
                                    (record { model = model; reasoning_effort = effort }) named)
                                  λ policy modelled. given _ (record {
                                    secret_long = sized.0;
                                    secret_short = sized.1;
                                    routed = routed;
                                    modelled = modelled;
                                    identified = pos;
                                    levelled = levelled;
                                    placed = refl;
                                    lifecycle = started;
                                    has_attempt = attempted_of _ (prefix_of paths h);
                                  })

  -- An environment that is accepted, with paths that the constructor of the paths accepts, gives a
  -- webhook secret of 32 to 1024 characters, a URL with the route of the webhook, a model, an
  -- application and a level of logs that are valid, a limit that the constructor of the lifecycle
  -- accepts, and settings of an attempt that its constructor accepts. It does not say that
  -- `ReviewResourceManager`, which wants a longer prefix, accepts them.
  pub from_environment-IsAccepted :
      (paths : ProductionPaths) (environment : Environment) (s : ProductionServiceSettings)
      → production_paths paths ≡ ok paths
      → from_environment urlsplit upper paths environment ≡ ok s
      → IsAccepted paths s
  from_environment-IsAccepted paths environment s h accepted =
      (from_environment-Yields paths environment h).good s accepted

  -- Whatever is raised of an environment that is not accepted is a `ConfigurationError`, or what
  -- splitting a URL raised: no error of a number, of an enumeration or of the checks of the policy gets
  -- out.
  pub from_environment-IsRefusal :
      (paths : ProductionPaths) (environment : Environment) (e : Raised)
      → production_paths paths ≡ ok paths
      → from_environment urlsplit upper paths environment ≡ err e
      → IsRefusal e
  from_environment-IsRefusal paths environment e h refused =
      (from_environment-Yields paths environment h).bad e refused
