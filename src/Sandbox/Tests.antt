-- ===== src/Sandbox/Tests.antt =====
-- A review in a sandbox whose model leaves an empty candidate.
use mathlib.Core.Path.{subst}
use specode_review.Base.{
  ◌≡◌, ◌⊎◌, refl, ap, Bool, true, false, some, [], ◌∷◌, ◌++◌, Text, text, replicate,
}
use specode_review.Base.Dict.{IsDistinct}
use specode_review.Errors.{
  timeout, ReviewError, Raised, review_error, timeout_error, is_exception, Result, ok, err,
}
use specode_review.Files.{path_equal}
use specode_review.Models.{valid_agent_review}
use specode_review.Publishing.Render.{rstrip}
use specode_review.Core.Diff.{lstrip}
use specode_review.Core.Review.{ReviewContext}
use specode_review.Json.{json_string, json_chars}
use specode_review.Sandbox.Control.{
  Tree, TreeEntry, CandidateContract, request_path, result_path, snapshot_trusted_tree,
  verify_trusted_artifacts, is_intact, current_paths, write_control_artifacts,
}
use specode_review.Sandbox.Life.{
  SandboxContext, ReviewExecutionClient, lived, removed_after, settled, normalized, run,
  prepare_vm_checkout,
}
use specode_review.Sandbox.Adapter.{
  CodexSandboxAdapter, control_of, codex_failed, invoke_codex, read_candidate, review_in_sandbox,
  produce,
}
use specode_review.Sandbox.Sound.{IsVerified, ListsOnce, produce-IsVerified}
use specode_review.Sandbox.Reports.{life, produce-IsNormal, produce_removes}

record Vm : Type 0 where
  there : Bool

abbrev head : Text
head = replicate 40 b'a'

abbrev review_context : ReviewContext
review_context = record {
  request = record {
    repository = text "o/r";
    pr_number = 7;
    installation_id = 1;
    base_sha = head;
    head_sha = head;
    title = text "t";
    description = [];
  };
  diff_range = record { start_sha = head; end_sha = head };
  paths = [];
  changed_files = 0;
  changed_text_lines = 0;
  primary_diff = [];
}

abbrev context : SandboxContext
context = record {
  review = review_context;
  workspace = record { anchor = text "/"; parts = text "w" ∷ [] };
  checkout = record { anchor = text "/"; parts = text "c" ∷ [] };
  sandbox_resources = record { cpus = 2; memory_mib = 2048; pids = 256 };
}

abbrev file : Text → TreeEntry
file contents = record { is_file = true; is_symlink = false; contents = some contents; mode = 292 }

abbrev tree : Tree
tree =
    (request_path (control_of context), file (text "r"))
    ∷ (result_path (control_of context), file (text "{}"))
    ∷ []

abbrev client : ReviewExecutionClient Vm
client = record {
  create_codex = λ n control checkout kit limits w. (ok tt, record { there = true });
  execute = λ n command workdir limit w. (ok (head ++ 10 ∷ []), w);
  remove = λ n w. (ok tt, record { there = false });
}

abbrev adapter_of : ReviewExecutionClient Vm → CodexSandboxAdapter Vm
adapter_of c = record {
  client = c;
  sandbox_name = text "abc-";
  kit = record { anchor = text "/"; parts = text "k" ∷ [] };
  model = text "m";
  reasoning_effort = text "high";
  mkdir = λ p w. (ok tt, w);
  write = λ p s w. (ok tt, w);
  chmod = λ p n w. (ok tt, w);
  rglob = λ p w. (ok tree, w);
  result_is_symlink = λ w. false;
  read_result = λ n w. (ok (text "{}"), w);
  parse = λ s. some (record { findings = [] });
}

abbrev contract : CandidateContract
contract = record { schema_json = text "{}"; max_bytes = 2 }

abbrev idle : Vm
idle = record { there = false }

produced : produce (adapter_of client) context contract idle ≡ (ok (text "{}"), idle)
unfolding produce run lived removed_after settled normalized prepare_vm_checkout review_in_sandbox
    invoke_codex codex_failed read_candidate snapshot_trusted_tree verify_trusted_artifacts
    is_intact current_paths write_control_artifacts valid_agent_review lstrip rstrip
produced = refl

abbrev got : Result Tree → Tree
got (ok t) = t
got (err e) = []

once : ListsOnce (adapter_of client) context
once w w' t h = subst IsDistinct (ap (λ (p : Result Tree × Vm). got p.0) h) (refl, (refl, tt))

produce-IsVerified_example :
    (u : Vm) × IsVerified (adapter_of client) context once contract (text "{}") idle u
    × (client.remove (text "abc-") u ≡ (ok tt, idle))
produce-IsVerified_example =
    produce-IsVerified (adapter_of client) context once contract (text "{}") idle idle produced

-- A client whose commands take too long.
abbrev slow : ReviewExecutionClient Vm
slow = record client { execute = λ n command workdir limit w. (err timeout_error, w) }

abbrev too_slow : Raised
too_slow = review_error (record { category = timeout; stage = "codex_execution" })

timed_out : produce (adapter_of slow) context contract idle ≡ (err too_slow, idle)
unfolding produce run lived removed_after settled normalized prepare_vm_checkout
    write_control_artifacts
timed_out = refl

produce-IsNormal_example :
    ((f : ReviewError) × (too_slow ≡ review_error f)) ⊎ (is_exception too_slow ≡ false)
produce-IsNormal_example =
    produce-IsNormal (adapter_of slow) context contract too_slow idle idle timed_out

produce_removes_example :
    ((produce (adapter_of slow) context contract idle).1
      ≡ (slow.remove (text "abc-") (life (adapter_of slow) context contract idle).1).1)
    × ((candidate : Text)
        → (produce (adapter_of slow) context contract idle).0 ≡ ok candidate
        → (slow.remove (text "abc-") (life (adapter_of slow) context contract idle).1).0 ≡ ok tt)
produce_removes_example = produce_removes (adapter_of slow) context contract idle

quoted : json_string (text "a\"b\n") ≡ text "\"a\\\"b\\n\""
unfolding json_chars
quoted = refl
