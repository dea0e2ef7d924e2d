-- ===== src/Sandbox/Sound.antt =====
-- What a candidate that is returned rests on.
use specode_review.Base.{
  ℕ, ◌+◌, ◌≤◌, ◌≡◌, refl, sym, ap, ◌∙◌, Bool, true, false, not, none, some, arith, Text, text_equal,
  text_eq_iff, ◌==◌, length, ltb,
}
use specode_review.Base.Dict.{IsDistinct}
use specode_review.Errors.{Raised, Result, ok, err}
use specode_review.Exec.{Exec, pure, raise, catch}
use specode_review.Exec.Leads.{Leads, leads}
use specode_review.Files.{FilePath, path_equal}
use specode_review.Core.Diff.{strip}
use specode_review.Sandbox.Control.{
  Tree, Snapshot, CandidateContract, result_path, snapshot_trusted_tree, verify_trusted_artifacts,
  is_intact, write_control_artifacts,
}
use specode_review.Sandbox.Intact.{file_view, trusted_view, is_intact-views}
use specode_review.Sandbox.Life.{
  SandboxContext, ReviewExecutionClient, execute, current_head, vm_checkout, wrong_head, ascii,
  raise_unless, prepare_vm_checkout, read_only_check, make_directory, copy_checkout, lived,
  removed_after, normalized, run,
}
use specode_review.Sandbox.Adapter.{
  CodexSandboxAdapter, control_of, invoke_codex, invalid_candidate, open_failed, is_valid_candidate,
  read_candidate, verify_trusted, review_in_sandbox, lift, produce,
}

pair_of : {A B : Type 0} {a : A} {b : B} (p : A × B) → p.0 ≡ a → p.1 ≡ b → p ≡ (a, b)
pair_of (x, y) e f = cc

-- A test that did not raise, and changed nothing.
passed :
    {W : Type 0} (test : Bool) (e : Raised) (u : Unit {0}) (w w' : W)
    → raise_unless test e w ≡ (ok u, w')
    → (test ≡ true) × (w ≡ w')
passed true e u w w' h = (refl, ap (λ p. p.1) h)
passed false e u w w' h = absurd (cc h)

-- A sandbox that returns: its action has, and then its removal.
removed_ok :
    {W A : Type 0} (client : ReviewExecutionClient W) (name : Text) (context : SandboxContext)
    (m : Exec W A) (handler : Raised → Raised) (x : A) (w w' : W)
    → removed_after client name context (catch m (λ e. raise (handler e))) w ≡ (ok x, w')
    → (m w ≡ (ok x, (m w).1)) × (client.remove name (m w).1 ≡ (ok tt, w'))
unfolding removed_after
removed_ok client name context m handler x w w' h = ground (arith, h)

module _ {W : Type 0} (a : CodexSandboxAdapter W) (context : SandboxContext) where
  -- The preparation of the copy, from the one state to the other: the checkout is read-only, it is copied,
  -- and then git in the sandbox named the head of the request.
  pub record HeadChecked (w w' : W) : Type 0 where
    pub s1 : W
    pub s2 : W
    pub s3 : W
    pub head : Text
    pub probe : Text
    pub made_text : Text
    pub copied_text : Text
    pub read_only :
        execute a.client a.sandbox_name context (read_only_check context.checkout) none w
        ≡ (ok probe, s1)
    pub made : execute a.client a.sandbox_name context make_directory none s1 ≡ (ok made_text, s2)
    pub copied :
        execute a.client a.sandbox_name context (copy_checkout context.checkout) none s2
        ≡ (ok copied_text, s3)
    pub asked :
        execute a.client a.sandbox_name context current_head (some vm_checkout) s3 ≡ (ok head, w')
    pub checked : strip head ≡ context.review.request.head_sha

  -- The control directory was listed, the model ran from the state that was left, and at its end the
  -- directory was listed again: its files other than the result were the same.
  pub record ControlIntact (w w' : W) : Type 0 where
    pub v : W
    pub u : W
    pub before : Tree
    pub after : Tree
    pub answer : Text
    pub listed : a.rglob (control_of context) w ≡ (ok before, v)
    pub invoked : invoke_codex a context v ≡ (ok answer, u)
    pub listed_again : a.rglob (control_of context) u ≡ (ok after, w')
    pub same :
        (path : FilePath)
        → file_view (result_path (control_of context)) path after
          ≡ trusted_view (result_path (control_of context)) path before

  -- The candidate was read from what is no link, is within the limit, and is valid.
  pub record IsCandidate (max_bytes : ℕ) (candidate : Text) (w w' : W) : Type 0 where
    pub no_symlink : a.result_is_symlink w ≡ false
    pub read : a.read_result (max_bytes + 1) w ≡ (ok candidate, w')
    pub short : length candidate ≤ max_bytes
    pub valid : is_valid_candidate a.parse candidate ≡ true

  prepared :
      (w : W)
      → Leads
          (λ (u : Unit {0}) w'. HeadChecked w w')
          w
          (prepare_vm_checkout a.client a.sandbox_name context)
  unfolding prepare_vm_checkout
  prepared w =
      let run_in = execute a.client a.sandbox_name context in
      leads (run_in (read_only_check context.checkout) none) _ λ probe w1 read_only.
        leads (run_in make_directory none) _ λ made_text w2 made.
          leads (run_in (copy_checkout context.checkout) none) _ λ copied_text w3 copied.
            leads (run_in current_head (some vm_checkout)) _ λ head w4 asked.
              leads (ascii a.client a.sandbox_name context head)
                (λ copied_head.
                  raise_unless (copied_head == context.review.request.head_sha) wrong_head)
                λ copied_head w5 decoded. record {
                  at = λ u w6 checked.
                      let (right, still) =
                        passed (copied_head == context.review.request.head_sha) wrong_head u w5 w6
                          checked in
                      let same : copied_head ≡ context.review.request.head_sha =
                        (text_eq_iff copied_head context.review.request.head_sha).0 right in
                      let stripped : strip head ≡ copied_head = ground (arith, decoded) in
                      let kept : w4 ≡ w5 = ap (λ (p : Result Text × W). p.1) decoded in
                      record {
                        s1 = w1;
                        s2 = w2;
                        s3 = w3;
                        head = head;
                        probe = probe;
                        made_text = made_text;
                        copied_text = copied_text;
                        read_only = read_only;
                        made = made;
                        copied = copied;
                        asked = asked ∙ ap (λ (x : W). (ok head, x)) (kept ∙ still);
                        checked = stripped ∙ same;
                      };
                }

  candidate_read :
      (max_bytes : ℕ) (w : W)
      → Leads
          (λ candidate w'. IsCandidate max_bytes candidate w w')
          w
          (read_candidate a context max_bytes)
  unfolding read_candidate
  candidate_read max_bytes w =
      leads (λ (w : W). raise_unless (not (a.result_is_symlink w)) invalid_candidate w) _
        λ u w1 no_link.
          leads (catch (a.read_result (max_bytes + 1)) (λ e. raise (open_failed e))) _
            λ candidate w2 found.
              leads (raise_unless (not (ltb max_bytes (length candidate))) invalid_candidate) _
                λ u3 w3 short.
                  leads (raise_unless (is_valid_candidate a.parse candidate) invalid_candidate)
                    (λ _. pure candidate)
                    λ u4 w4 valid. record {
                      at = λ c w5 h.
                          let same : candidate ≡ c = cc in
                          let end : w4 ≡ w5 = ap (λ (p : Result Text × W). p.1) h in
                          let (real, still) =
                            passed (not (a.result_is_symlink w)) _ u w w1 no_link in
                          let (fits, kept) = passed _ _ u3 w2 w3 short in
                          let (meets, last) = passed _ _ u4 w3 w4 valid in
                          let got : a.read_result (max_bytes + 1) w1 ≡ (ok candidate, w2) =
                            ground (arith, found) in
                          rw (sym same) (record {
                            no_symlink = ground (arith, real);
                            read =
                                ap (a.read_result (max_bytes + 1)) still
                                ∙ got
                                ∙ ap (λ (x : W). (ok candidate, x)) (kept ∙ (last ∙ end));
                            short = ground (arith, fits);
                            valid = meets;
                          });
                    }

  verified :
      (result : FilePath) (snapshot : Snapshot) (r : Result Tree)
      → verify_trusted_artifacts result snapshot r ≡ ok tt
      → (tree : Tree) × (r ≡ ok tree) × (is_intact result snapshot tree ≡ true)
  unfolding verify_trusted_artifacts
  verified result snapshot (ok tree) h = (tree, refl, ground (arith, h))
  verified result snapshot (err e) h = absurd (ground (arith, h))

  -- What a listing of the control directory gives has no path twice.
  abbrev pub ListsOnce : Type 0
  ListsOnce =
      (w w' : W) (tree : Tree) → a.rglob (control_of context) w ≡ (ok tree, w') → IsDistinct tree

  module _ (once : ListsOnce) (contract : CandidateContract) where
    reviewed :
        (w : W)
        → Leads
            (λ candidate w'.
              (v : W) × ControlIntact w v × IsCandidate contract.max_bytes candidate v w')
            w
            (review_in_sandbox a context contract.max_bytes)
    unfolding review_in_sandbox
    reviewed w =
        let result = result_path (control_of context) in
        leads (a.rglob (control_of context)) _ λ before w1 listed.
          leads (lift a context (snapshot_trusted_tree result before)) _ λ snapshot w2 taken.
            leads (invoke_codex a context) _ λ answer w3 invoked.
              leads (verify_trusted a context snapshot)
                (λ _. read_candidate a context contract.max_bytes)
                λ u w4 checked. record {
                  at = λ candidate w5 h.
                      let (after, again, intact) =
                        verified result snapshot (a.rglob (control_of context) w3).0
                          (ap (λ (p : Result (Unit {0}) × W). p.0) checked) in
                      let relisted : a.rglob (control_of context) w3 ≡ (ok after, w4) =
                        pair_of (a.rglob (control_of context) w3) again
                          (ap (λ (p : Result (Unit {0}) × W). p.1) checked) in
                      let still : w1 ≡ w2 = ap (λ (p : Result Snapshot × W). p.1) taken in
                      (
                        w4,
                        record {
                          v = w2;
                          u = w3;
                          before = before;
                          after = after;
                          answer = answer;
                          listed = listed ∙ ap (λ (x : W). (ok before, x)) still;
                          invoked = invoked;
                          listed_again = relisted;
                          same = λ path.
                              is_intact-views result path before after snapshot
                                (once w w1 before listed) (once w3 w4 after relisted)
                                (ap (λ (p : Result Snapshot × W). p.0) taken) intact;
                        },
                        (candidate_read contract.max_bytes w4).at candidate w5 h,
                      );
                }

    -- The stages of a review, each from the state in which the one before it ended.
    pub record IsVerified (candidate : Text) (w w' : W) : Type 0 where
      pub s1 : W
      pub s2 : W
      pub s3 : W
      pub s4 : W
      pub s5 : W
      pub control_made : a.mkdir (control_of context) w ≡ (ok tt, s1)
      pub control_written :
          write_control_artifacts a.write a.chmod (control_of context) context.review contract s1
          ≡ (ok tt, s2)
      pub created :
          a.client.create_codex a.sandbox_name
            (control_of context)
            context.checkout
            a.kit
            context.sandbox_resources
            s2
          ≡ (ok tt, s3)
      pub head_checked : HeadChecked s3 s4
      pub control_intact : ControlIntact s4 s5
      pub candidate_valid : IsCandidate contract.max_bytes candidate s5 w'

    alive :
        (w : W)
        → Leads
            (λ candidate w'. IsVerified candidate w w')
            w
            (lived a.client a.sandbox_name context
              (a.mkdir (control_of context))
              (write_control_artifacts a.write a.chmod (control_of context) context.review contract)
              (a.client.create_codex a.sandbox_name
                (control_of context)
                context.checkout
                a.kit
                context.sandbox_resources)
              (review_in_sandbox a context contract.max_bytes))
    unfolding lived
    alive w = leads (a.mkdir (control_of context)) _ λ _ w1 made.
        leads (write_control_artifacts a.write a.chmod (control_of context) context.review contract)
          _
          λ _ w2 written.
            leads
              (a.client.create_codex a.sandbox_name (control_of context) context.checkout a.kit
                context.sandbox_resources)
              _
              λ _ w3 created.
                leads (prepare_vm_checkout a.client a.sandbox_name context)
                  (λ _. review_in_sandbox a context contract.max_bytes)
                  λ u w4 ready. record {
                    at = λ candidate w5 h.
                        let (w', intact, valid) = (reviewed w4).at candidate w5 h in
                        record {
                          s1 = w1;
                          s2 = w2;
                          s3 = w3;
                          s4 = w4;
                          s5 = w';
                          control_made = made;
                          control_written = written;
                          created = created;
                          head_checked = (prepared w3).at u w4 ready;
                          control_intact = intact;
                          candidate_valid = valid;
                        };
                  }

    -- A candidate that `produce` returns was made in stages that followed one another: the control
    -- directory was made and written and the sandbox created; the checkout was copied in it, and git
    -- found the copy at the head of the request; the trusted files of the control directory were listed,
    -- the model ran, and then they were listed again and were the same; and after that the candidate was
    -- read, which is within the limit and meets the constraints of the models. The removal of the
    -- sandbox, called in the state that was left, returned, and was the last call.
    pub produce-IsVerified :
        (candidate : Text) (w w' : W)
        → produce a context contract w ≡ (ok candidate, w')
        → (u : W) × IsVerified candidate w u × (a.client.remove a.sandbox_name u ≡ (ok tt, w'))
    unfolding produce run
    produce-IsVerified candidate w w' h =
        let life =
          lived a.client a.sandbox_name context (a.mkdir (control_of context))
            (write_control_artifacts a.write a.chmod (control_of context) context.review contract)
            (a.client.create_codex a.sandbox_name (control_of context) context.checkout a.kit
              context.sandbox_resources)
            (review_in_sandbox a context contract.max_bytes) in
        let (first, last) =
          removed_ok a.client a.sandbox_name context life
            (normalized "codex_execution" "codex_sandbox_lifecycle") candidate w w' h in
        ((life w).1, (alive w).at candidate (life w).1 first, last)
