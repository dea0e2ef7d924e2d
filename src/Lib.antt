-- ===== src/Lib.antt =====
-- A verification library for specode-review, a service that reviews pull requests of GitHub: a
-- webhook is accepted, its revision is claimed, a preflight asks whether it still wants a review, a
-- run makes the review in resources of its own, cleans them up, and publishes one comment.
--
-- Parts, and the files that model them. All sources are below src/specode_review/.
--   Base         the names of the libraries that the others use, lists and texts over native numbers,
--                association lists, decimal numerals
--   Errors       errors.py; the classes of exceptions that handlers tell apart, `GitHubError`
--   Exec         code that changes a state and may raise, for do blocks; Exec.Leads has the rules for
--                what holds when it returns, and however it ends
--   Models       models.py: each data type with the checks of its fields as a Boolean test;
--                Models.Description has `bound_description`
--   Revision     accepted_revision.py: `AcceptedRevision`; Revision.Identity is about its hashed text
--   Submission   submission.py, and `PreflightOutcome` of review_runner.py
--   Lifecycle    lifecycle.py: `ReviewLifecycle`. `enter` and `exit_begin`/`exit_end` are
--                `__aenter__` and `__aexit__`, `submit` and `resume` the two halves of `submit`,
--                `promote` the last critical section of `_submit_claimed`, `finish_run` the end of
--                `_run`. Lifecycle.Steps is the step relation of the event loop, Lifecycle.Valid the
--                invariant, Lifecycle.Invariant and Lifecycle.Shutdown what follows, Lifecycle.Refinement
--                the service that its callers see
--   Publishing   publishing.py: CodeSpan is `_render_code_span`, SafeText `_safe_model_text`, Render
--                `render_review_comment`, Comment `_expected_review_comment` and
--                `owned_revision_comments`, Publish `publish_review_result` with
--                `_reconcile_ambiguous_mutation`; Gateway is the interface of github.py that it
--                uses, Contract what it relies on of GitHub, Confirmed what a receipt means
--   Configuration configuration.py: the settings, the checks of their constructors, and
--                `from_environment` in Load; Accepted says what an accepted environment is good for
--   Files        paths and what a file system answers, for the parts that look at files
--   Json         the texts that `json.dumps` writes for a request
--   Environment  the environment file of the service, as campaign.py and verification.py read it
--   Resources    resources.py: Names is `AttemptResources`, Manager `ReviewResourceManager` with
--                `cleanup` and `sweep_stale`; Sweep, Cleanup and Spared say what they remove
--   Process      process.py: `run_bounded_process` with the loop that reads its pipes; Bounded is about
--                what it returns, Reaped about its end
--   Sandbox      sandbox.py: Client is `DockerSandboxClient`, Life `_SandboxLifecycle`, Control the
--                control directory, Adapter `CodexSandboxAdapter`; Sound says what a candidate rests
--                on, Reports what is raised and how the sandbox is removed
--   Live         live.py: `require_fresh_live_review` and `verify_live_review_evidence`; Live.Evidence
--                says what they have seen
--   Campaign     campaign.py: Target is `CampaignTarget`, Records the journal with
--                `_completed_attempt`, Run `run_signed_review_campaign`, Host
--                `SubprocessCampaignHost`; Completed, Sound, Proven and Ends are about its result
--   Verification verification.py: Url is `_safe_webhook_url` and its neighbours, Verifier
--                `InstallationVerifier`, Host what it asks of its host, Probe its sandbox; Served and
--                Clean say what a verification has seen, Poll how long it waits
--   Deadline     deadline.py: `ReviewDeadline` and `remaining_review_time`
--   Core         core.py: Grounding is `_ground_candidate` and what it calls, Accept
--                `CandidateAcceptance.accept`, Diff `_changed_paths` and `_changed_text_lines`, Review
--                `Reviewer.review` with `_prepare_context`; Grounding.Described says when
--                grounding accepts, by way of Grounding.Exact, Reports what is raised, Review.Prepared what a
--                checkout has passed, Review.Sound what a result rests on
--   Web          web.py: Body is `_read_bounded_body`, `accept_github_webhook` the handler of a
--                webhook with `_submission_response`; Accepted says which webhooks are submitted
--   Github       github.py: what `_request` raises and how `list_review_comments` reads its pages;
--                Github.Complete says that no page is missed, Github.Mutations has
--                `create_review_comment` and `update_review_comment`
--   Runner       review_runner.py: Preflight is `ReviewRunner.preflight`, Run `ReviewRunner.run`,
--                Recorded collaborators whose calls are recorded; Track, Settle and Transaction
--                follow the body of `run`, its `finally` and its end
--
-- How they interact: Web takes the `submit` of a lifecycle as an argument. Lifecycle takes the answer
-- of a preflight as an argument, and Runner.Preflight computes it from the comments that
-- Publishing.Comment owns. Runner.Run calls the review and the publication as two of its
-- collaborators: the review is that of Core.Review, which takes git, the candidate adapter and the
-- files of a checkout as parameters, and Publishing takes GitHub as a record of calls on a state of
-- any type. The adapter of the sandbox gives such a candidate; it, the manager of the resources and
-- the verifier use the client and the names of Resources. A campaign looks for the comment with the
-- functions of Publishing.Comment through Live, and like the verifier for what Resources owns.
--
-- Texts are lists of code points. A number is a native one; no value of the modelled code can be
-- negative, except that identifiers are checked to be positive where the source does. Times are in
-- milliseconds.
--
-- Fuel: `longest_fit`, the bisection of `_safe_model_text`, is given the length of the text, and each
-- turn makes its interval smaller, so that it ends before its fuel does. `decimal` is given a fuel above its number, and
-- reading its digits gives the number back. The capture of a process is given four turns more than
-- the bytes that it may print, since each turn reads a byte or ends a pipe or the run; the watch of a
-- campaign one turn more than the milliseconds of its timeout, and the wait for the URL of the
-- webhook one more than its milliseconds, since each turn lets one pass at least. That this is enough
-- is a part of the theorems on their results. All other functions are structural.
--
-- Parameters: SHA-256, the Unicode table of general categories, `casefold`, `upper`, `urlsplit`, the
-- HMAC of a webhook, the readers of JSON, GitHub, the clock, the collaborators of a run, git, the adapter that asks the
-- model, and the files of a checkout, which the adapter does not change. A hypothesis on one has a
-- name: `IsDigest` says that a digest is 64 hexadecimal digits; `GitHubContract` that comments have
-- distinct identifiers, that a listing shows them, that a mutation returns the comment that is then
-- there, whatever its body, and that one that raises was made or was not; `IsReadable` that a file
-- that cannot be read raises an error that grounding catches; `IsExpected` what the adapter raises.
-- `HostContract` says what the removal of a sandbox or a workspace removes, `ListsOnce` that a
-- listing names each once; `SystemContract` and `Selects` what the operating system answers of pipes
-- and processes; `KeepsMembers` that a set is iterated over its members; `IsTimed` that the clock does
-- not run backwards and that a pause takes its time; `Counts` is a count of the time slept.
--
-- Not modelled: log records, threads below the event loop, what follows a `BaseException` that is
-- neither an `Exception` nor a cancellation in it (its submission is `interrupted`, and is no step), the clone of a repository and the check of
-- the JSON schema in core.py, the token, the other calls and the retry time in github.py, the routes
-- of web.py, the search for the executable and the environment of its processes in sandbox.py,
-- the command lines of campaign.py and verification.py with the host of the latter, and the files
-- readiness.py, production.py, lifecycle_evidence.py, fixtures.py and installation.py, which stand
-- outside the core of a review or are input and output. `int` of configuration.py reads ASCII digits
-- only.
pub mod Base
pub mod Campaign
pub mod Configuration
pub mod Core
pub mod Deadline
pub mod Environment
pub mod Errors
pub mod Exec
pub mod Files
pub mod Github
pub mod Json
pub mod Lifecycle
pub mod Live
pub mod Models
pub mod Process
pub mod Publishing
pub mod Resources
pub mod Revision
pub mod Runner
pub mod Sandbox
pub mod Submission
pub mod Verification
pub mod Web
