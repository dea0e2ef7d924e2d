-- ===== src/Verification/Tests.antt =====
-- A host that is ready, whose runs print what a script says.
use specode_review.Base.{
  ℕ, ◌+◌, ◌≤◌, ◌≡◌, ◌≢◌, refl, none, some, List, [], ◌∷◌, ◌++◌, arith, Text, text, leb,
  if◌then◌else◌,
}
use specode_review.Base.Substring.{starts_with}
use specode_review.Core.Diff.{lstrip}
use specode_review.Environment.{partition_equals, read_line, read_lines, parse_environment}
use specode_review.Errors.{Result, ok}
use specode_review.Publishing.Comment.{split_lines}
use specode_review.Publishing.Render.{rstrip}
use specode_review.Resources.{is_owned, is_attempt_id}
use specode_review.Verification.Url.{public_health_url}
use specode_review.Verification.Host.{Host, probe_name, sandbox_names}
use specode_review.Verification.Probe.{
  verify_no_stale_resources, create_probe, use_probe, probed, probe_sandbox,
}
use specode_review.Verification.Verifier.{
  proofs, settings, verify_units, verify_health, poll_webhook, watch_webhook, verify_github,
  verify_tools_and_kit, verify,
}
use specode_review.Verification.Clean.{IsProvenHost, verify-IsProvenHost}
use specode_review.Verification.Poll.{Counts, poll_webhook_waits}

record Machine : Type 0 where
  outputs : List Text
  slept : ℕ

abbrev webhook : Text
webhook = text "https://h/webhooks/github"

abbrev print : List Text → ℕ → Result Text × Machine
print [] n = (ok [], record { outputs = []; slept = n })
print (s ∷ outputs) n = (ok s, record { outputs = outputs; slept = n })

-- GitHub knows the URL after 10 ms.
abbrev host : Host Machine
host = record {
  urlsplit = λ url. ok (record {
    scheme = text "https";
    netloc = text "h";
    path = text "/webhooks/github";
    query = [];
    fragment = [];
    username = none;
    password = none;
  });
  settings_of = λ environment. ok (record { app_id = 1; public_webhook_url = webhook });
  read_file = λ w. (ok (some (text "# x\nA=1\n")), w);
  run = λ arguments w. print w.outputs w.slept;
  owned_workspace_names = λ w. (ok (text "other" ∷ []), w);
  prepare_probe_mounts = λ w. (ok tt, w);
  remove_probe_mounts = λ w. (ok tt, w);
  github = λ n w. (ok tt, w);
  webhook_url = λ w. (ok (if leb 10 w.slept then webhook else text "https://old"), w);
  close = λ w. (ok tt, w);
  sleep = λ ms w. (ok tt, record w { slept = w.slept + ms });
  webhook_wait = 20;
  webhook_poll = 5;
}

abbrev start : Machine
start = record {
  outputs =
      []
      ∷ []
      ∷ []
      ∷ []
      ∷ []
      ∷ text "sbx version: v0.35.0\n"
      ∷ text "codex-cli 0.144.6\n"
      ∷ []
      ∷ []
      ∷ []
      ∷ text "other\n"
      ∷ text "other\n"
      ∷ []
      ∷ []
      ∷ text "probe-ok"
      ∷ []
      ∷ []
      ∷ []
      ∷ (probe_name ++ 10 ∷ [])
      ∷ []
      ∷ []
      ∷ []
      ∷ [];
  slept = 0;
}

abbrev end : Machine
end = record { outputs = []; slept = 10 }

passes : verify host start ≡ (ok proofs, end)
unfolding verify settings verify_units verify_health poll_webhook watch_webhook verify_github
    verify_tools_and_kit sandbox_names verify_no_stale_resources create_probe use_probe probed
    probe_sandbox public_health_url parse_environment read_lines read_line partition_equals
    starts_with split_lines lstrip rstrip is_owned is_attempt_id
passes = refl

verify-IsProvenHost_example : IsProvenHost host start end
verify-IsProvenHost_example = verify-IsProvenHost host start end proofs (omega arith) passes

counts : Counts host (λ w. w.slept)
counts = record { pauses = λ ms w. omega arith; looks = λ w. refl }

poll_webhook_waits_example :
    ((poll_webhook host 8 7 webhook (text "https://old") start).1.slept ≤ 7)
    × ((poll_webhook host 8 7 webhook (text "https://old") start).0 ≢ ok none)
poll_webhook_waits_example =
    poll_webhook_waits host (λ w. w.slept) counts 7 webhook (text "https://old") start (omega arith)
