-- ===== src/Verification/Probe.antt =====
-- The resources that `InstallationVerifier` of src/specode_review/verification.py looks for, and its
-- probe of a sandbox.
use specode_review.Base.{
  Bool, true, false, not, List, [], ◌∷◌, ◌++◌, Text, text, text_equal, ◌==◌, any, contains,
}
use specode_review.Errors.{Result, ok, err}
use specode_review.Exec.{Exec, raise, catch, ◌>>=◌, ◌>>◌}
use specode_review.Resources.{is_owned, workspace_prefix}
use specode_review.Verification.Host.{
  Host, probe_name, sandbox_prefix, service_command, fails_at, both, fail_if, only_if, run,
  run_quietly, sandbox_names,
}

module _ {W : Type 0} (host : Host W) where
  -- `_verify_no_stale_resources`
  unfoldable pub verify_no_stale_resources : Exec W (Unit {0})
  unfolding sandbox_names
  verify_no_stale_resources = do
    names ← sandbox_names host "resource_cleanup"
    fail_if (any (is_owned sandbox_prefix) names) "resource_cleanup"
    workspaces ← catch host.owned_workspace_names (λ e. raise (fails_at "resource_cleanup" e))
    fail_if (any (is_owned workspace_prefix) workspaces) "resource_cleanup"

  abbrev probe_command : List Text → Exec W (Unit {0})
  probe_command arguments = run_quietly host "sandbox_capabilities" (service_command arguments)

  abbrev pub remove_probe : Exec W (Unit {0})
  remove_probe = probe_command (text "sbx" ∷ text "rm" ∷ text "--force" ∷ probe_name ∷ [])

  abbrev control_mount : Text
  control_mount = text "/var/lib/specode-review/verification-probe/control"

  abbrev read_only_mount : Text
  read_only_mount = text "/var/lib/specode-review/verification-probe/readonly"

  -- The probe up to its creation.
  unfoldable pub create_probe : Exec W (Unit {0})
  create_probe = do
    host.prepare_probe_mounts
    probe_command (
        text "sbx"
        ∷ text "create"
        ∷ text "--quiet"
        ∷ text "--name"
        ∷ probe_name
        ∷ text "--cpus"
        ∷ text "1"
        ∷ text "--memory"
        ∷ text "512m"
        ∷ text "shell"
        ∷ control_mount
        ∷ (read_only_mount ++ text ":ro")
        ∷ [])

  -- The probe from its creation on.
  unfoldable pub use_probe : Exec W (Unit {0})
  unfolding sandbox_names
  use_probe = do
    probe_command (
        text "sbx"
        ∷ text "policy"
        ∷ text "deny"
        ∷ text "network"
        ∷ text "--sandbox"
        ∷ probe_name
        ∷ text "**"
        ∷ [])
    output ← run host "sandbox_capabilities" (
        service_command (
          text "sbx"
          ∷ text "exec"
          ∷ probe_name
          ∷ text "sh"
          ∷ text "-ceu"
          ∷ text "test -w \"$1\"; test ! -w \"$2\"; printf probe-ok"
          ∷ text "probe"
          ∷ control_mount
          ∷ read_only_mount
          ∷ []))
    fail_if (not (output == text "probe-ok")) "sandbox_capabilities"
    probe_command (text "sbx" ∷ text "inspect" ∷ probe_name ∷ [])
    probe_command (text "sbx" ∷ text "policy" ∷ text "ls" ∷ probe_name ∷ text "--json" ∷ [])
    probe_command (text "sbx" ∷ text "secret" ∷ text "ls" ∷ probe_name ∷ [])
    names ← sandbox_names host "sandbox_capabilities"
    fail_if (not (contains names probe_name)) "sandbox_capabilities"

  abbrev remove_mounts : Exec W (Unit {0})
  remove_mounts = catch host.remove_probe_mounts (λ e. raise (fails_at "sandbox_capabilities" e))

  -- The `finally`: the probe, if it was created, and then its mounts.
  abbrev pub clean_probe : Bool → Exec W (Unit {0})
  clean_probe created = do only_if created remove_probe; remove_mounts

  -- The `try` and the `finally` of `_probe_sandbox`.
  unfoldable pub probed : Exec W (Unit {0})
  unfolding create_probe use_probe
  probed w =
      let (made, w') = create_probe w in
      elim made as (λ _. Result (Unit {0}) × W) [
        | ok u ↦ both use_probe (clean_probe true) w'
        | err e ↦ both (raise e) (clean_probe false) w'
      ]

  -- `_probe_sandbox`
  unfoldable pub probe_sandbox : Exec W (Unit {0})
  unfolding probed sandbox_names
  probe_sandbox = do
    names ← sandbox_names host "sandbox_capabilities"
    only_if (contains names probe_name) remove_probe
    probed
    left ← sandbox_names host "resource_cleanup"
    fail_if (contains left probe_name) "resource_cleanup"
