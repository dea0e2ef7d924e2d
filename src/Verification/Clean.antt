-- ===== src/Verification/Clean.antt =====
-- What a verification that passes has seen.
use Prim.Native.String.{String}
use mathlib.Core.Path.{subst}
use specode_review.Base.{
  ◌<◌, ◌≡◌, refl, sym, ap, Bool, true, false, List, [], ◌∷◌, Text, text, text_equal, any, contains,
}
use specode_review.Base.Dict.{lookup}
use specode_review.Errors.{ok}
use specode_review.Exec.{pure, raise, catch}
use specode_review.Exec.Leads.{Leads, leads}
use specode_review.Environment.{Environment}
use specode_review.Resources.{is_owned, workspace_prefix}
use specode_review.Verification.Host.{
  Host, Settings, probe_name, sandbox_prefix, service_command, fails_at, fail_if, only_if, run,
  names_in, sandbox_names,
}
use specode_review.Verification.Probe.{
  verify_no_stale_resources, remove_probe, probed, probe_sandbox,
}
use specode_review.Verification.Verifier.{
  is_managed, settings, verify_units, verify_health, verify_github, verify_tools_and_kit, proofs,
  verify,
}
use specode_review.Verification.Served.{caught, GithubProven, github-GithubProven}

module _ {W : Type 0} (host : Host W) where
  abbrev list_command : List Text
  list_command = service_command (text "sbx" ∷ text "ls" ∷ text "--quiet" ∷ [])

  -- A listing of the sandboxes from the one state to the other, in which a test found none.
  abbrev pub NoSandbox : (List Text → Bool) → W → W → Type 0
  NoSandbox test w w' =
      (output : Text) × (host.run list_command w ≡ (ok output, w'))
      × (test (names_in host output) ≡ false)

  -- The same of the entries of the workspace root.
  abbrev pub NoWorkspace : W → W → Type 0
  NoWorkspace w w' =
      (entries : List Text) × (host.owned_workspace_names w ≡ (ok entries, w'))
      × (any (is_owned workspace_prefix) entries ≡ false)

  none_listed :
      (stage : String) (names : List Text) (w w' : W)
      → sandbox_names host stage w ≡ (ok names, w')
      → (output : Text) × (host.run list_command w ≡ (ok output, w'))
        × (names ≡ names_in host output)
  unfolding sandbox_names
  none_listed stage names w w' h =
      (leads
          {Q = λ names w'.
            (output : Text) × (host.run list_command w ≡ (ok output, w'))
            × (names ≡ names_in host output)}
          (run host stage list_command) (λ output. pure (names_in host output))
          λ output w1 ran. record {
            at = λ names w2 last.
                let same : w1 ≡ w2 = cc in
                let listed : names_in host output ≡ names = cc in
                (
                  output,
                  subst (λ x. host.run list_command w ≡ (ok output, x)) same
                      (caught (host.run list_command) (fails_at stage) output w w1 ran),
                  sym listed,
                );
          }).at
        names w' h

  -- A test that did not fail.
  passed :
      (test : Bool) (stage : String) (u : Unit {0}) (w w' : W)
      → fail_if test stage w ≡ (ok u, w')
      → (test ≡ false) × (w ≡ w')
  passed true stage u w w' h = absurd (cc h)
  passed false stage u w w' h = (refl, ap (λ p. p.1) h)

  -- No owned sandbox and then no owned workspace was there.
  abbrev pub IsFresh : W → W → Type 0
  IsFresh w w' = (v : W) × NoSandbox (any (is_owned sandbox_prefix)) w v × NoWorkspace v w'

  unseen :
      (test : List Text → Bool) (stage : String) (names : List Text) (w w' : W)
      → sandbox_names host stage w ≡ (ok names, w')
      → test names ≡ false
      → NoSandbox test w w'
  unseen test stage names w w' listed absent =
      let (output, ran, same) = none_listed stage names w w' listed in
      (output, ran, subst (λ (x : List Text). test x ≡ false) same absent)

  no_stale : (w : W) → Leads (λ (u : Unit {0}) w'. IsFresh w w') w (verify_no_stale_resources host)
  unfolding verify_no_stale_resources
  no_stale w = leads (sandbox_names host "resource_cleanup") _ λ names w1 listed.
      leads (fail_if (any (is_owned sandbox_prefix) names) "resource_cleanup") _ λ u w2 absent.
        leads (catch host.owned_workspace_names (λ e. raise (fails_at "resource_cleanup" e)))
          (λ workspaces. fail_if (any (is_owned workspace_prefix) workspaces) "resource_cleanup")
          λ workspaces w3 found. record {
            at = λ v w4 h.
                let (free, same) =
                  passed (any (is_owned sandbox_prefix) names) "resource_cleanup" u w1 w2 absent in
                let (empty, end) =
                  passed (any (is_owned workspace_prefix) workspaces) "resource_cleanup" v w3 w4
                    h in
                (
                  w2,
                  subst (NoSandbox (any (is_owned sandbox_prefix)) w) same (
                      unseen (any (is_owned sandbox_prefix)) "resource_cleanup" names w w1 listed
                        free),
                  subst (NoWorkspace w2) end (
                    workspaces,
                    caught host.owned_workspace_names (fails_at "resource_cleanup") workspaces w2 w3
                        found,
                    empty,
                  ),
                );
          }

  -- The end of the probe: it is used and removed, and then it is not there.
  abbrev pub ProbeGone : W → W → Type 0
  ProbeGone w w' =
      (v : W) × (probed host w ≡ (ok tt, v)) × NoSandbox (λ names. contains names probe_name) v w'

  -- A look at the sandboxes, and the removal of a probe that is left there, from earlier on.
  abbrev pub ProbeCleared : W → W → Type 0
  ProbeCleared w w' =
      (names : List Text) × (v : W) × (sandbox_names host "sandbox_capabilities" w ≡ (ok names, v))
      × (only_if (contains names probe_name) (remove_probe host) v ≡ (ok tt, w'))

  no_probe :
      (w : W)
      → Leads
          (λ (u : Unit {0}) w'. (v : W) × ProbeCleared w v × ProbeGone v w')
          w
          (probe_sandbox host)
  unfolding probe_sandbox
  no_probe w = leads (sandbox_names host "sandbox_capabilities") _ λ names w1 before.
      leads (only_if (contains names probe_name) (remove_probe host)) _ λ _ w2 cleared.
        leads (probed host) _ λ _ w3 used.
          leads (sandbox_names host "resource_cleanup")
            (λ left. fail_if (contains left probe_name) "resource_cleanup")
            λ left w4 listed. record {
              at = λ u w5 h.
                  let (gone, same) =
                    passed (contains left probe_name) "resource_cleanup" u w4 w5 h in
                  (
                    w2,
                    (names, w1, before, cleared),
                    (
                      w3,
                      used,
                      subst (NoSandbox (λ names. contains names probe_name) w3) same (
                          unseen (λ names. contains names probe_name) "resource_cleanup" left w3 w4
                            listed gone),
                    ),
                  );
            }

  -- The stages of a verification, each from the state in which the one before it ended.
  pub record IsProvenHost (w w' : W) : Type 0 where
    pub configured : Settings × Environment
    pub s1 : W
    pub s2 : W
    pub s3 : W
    pub s4 : W
    pub s5 : W
    pub s6 : W
    pub s7 : W
    pub s8 : W
    pub read : settings host w ≡ (ok configured, s1)
    pub units :
        verify_units host (is_managed (lookup (text "NGROK_URL") configured.1)) s1 ≡ (ok tt, s2)
    pub health : verify_health host configured.0.public_webhook_url s2 ≡ (ok tt, s3)
    pub github : GithubProven host configured.0 s3 s4
    pub tools :
        verify_tools_and_kit host (is_managed (lookup (text "NGROK_URL") configured.1)) s4
        ≡ (ok tt, s5)
    pub fresh_before : IsFresh s5 s6
    pub probe_cleared : ProbeCleared s6 s7
    pub probe_gone : ProbeGone s7 s8
    pub fresh_after : IsFresh s8 w'

  proven :
      (w : W)
      → 0 < host.webhook_poll
      → Leads (λ (evidence : List Text) (w' : W). IsProvenHost w w') w (verify host)
  unfolding verify
  proven w pos = leads (settings host) _ λ configured w1 read.
      leads (verify_units host (is_managed (lookup (text "NGROK_URL") configured.1))) _
        λ _ w2 units. leads (verify_health host configured.0.public_webhook_url) _ λ _ w3 health.
          leads (verify_github host configured.0) _ λ u w4 served.
            leads (verify_tools_and_kit host (is_managed (lookup (text "NGROK_URL") configured.1)))
              _
              λ _ w5 tools. leads (verify_no_stale_resources host) _ λ x w6 before.
                leads (probe_sandbox host) _ λ v w7 probe.
                  leads (verify_no_stale_resources host) (λ x. pure proofs)
                    λ y w8 fresh. record {
                      at = λ o w9 end.
                          let (s7, cleared, gone) = (no_probe w6).at v w7 probe in
                          record {
                            configured = configured;
                            s1 = w1;
                            s2 = w2;
                            s3 = w3;
                            s4 = w4;
                            s5 = w5;
                            s6 = w6;
                            s7 = s7;
                            s8 = w7;
                            read = read;
                            units = units;
                            health = health;
                            github = (github-GithubProven host configured.0 w3 pos).at u w4 served;
                            tools = tools;
                            fresh_before = (no_stale w5).at x w6 before;
                            probe_cleared = cleared;
                            probe_gone = gone;
                            fresh_after =
                                subst (IsFresh w7) (ap (λ p. p.1) end)
                                  ((no_stale w7).at y w8 fresh);
                          };
                    }

  -- A verification that passes went through its stages one after the other: it read the settings of the
  -- service, verified its units, its health, and that GitHub, when it was last asked before the client
  -- was closed, gave the webhook the URL of these settings; then the tools; then no sandbox and no
  -- workspace of the service was there; then a probe that was left was removed, and a new one used, and
  -- the next listing had no probe; and last, up to the state that the verification leaves, again no
  -- sandbox and no workspace of the service was there. The pause between two looks at the URL is not 0.
  pub verify-IsProvenHost :
      (w w' : W) (evidence : List Text)
      → 0 < host.webhook_poll
      → verify host w ≡ (ok evidence, w')
      → IsProvenHost w w'
  verify-IsProvenHost w w' evidence pos h = (proven w pos).at evidence w' h
