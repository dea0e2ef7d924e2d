-- ===== src/Core/Review/Prepared.antt =====
-- src/specode_review/core.py: the stages of the preparation of a review.
use mathlib.Core.Path.{subst}
use specode_review.Base.{
  ◌≤◌, ◌≡◌, refl, ap, Bool, true, false, not, [], arith, Text, text, text_equal, text_eq_iff, ◌==◌,
  length,
}
use specode_review.Errors.{value_error, Raised, Result, ok, err}
use specode_review.Exec.{Exec, pure, raise, catch}
use specode_review.Exec.Leads.{Leads, leads}
use specode_review.Models.{ReviewRequest, DiffRange}
use specode_review.Core.Accept.{lift}
use specode_review.Core.Diff.{changed_paths, changed_text_lines}
use specode_review.Core.Review.{
  max_changed_files, max_changed_text_lines, ReviewContext, Reviewer, preparation_failed, too_large,
  has_commit, check_out, current_head, merge_base_of, diff_of, patch_of, diff_range, is_too_large,
  or_raise, git_text, materialized, prepare_context,
}

pub value_of : {A : Type 0} → A → Result A → A
value_of a (ok b) = b
value_of a (err e) = a

pub of_ok : {A : Type 0} (a b : A) → ◌≡◌ {A = Result A} (ok a) (ok b) → a ≡ b
unfolding value_of
of_ok a b h = ap (value_of a) h

module _ {W : Type 0} (r : Reviewer W) (request : ReviewRequest) where
  -- The stages of a preparation, each from the state in which the one before it ended, with what git
  -- answered and the context that was made of it.
  pub record IsPrepared (context : ReviewContext) (w w' : W) : Type 0 where
    pub s1 : W
    pub s2 : W
    pub s3 : W
    pub s4 : W
    pub s5 : W
    pub s6 : W
    pub s7 : W
    pub s8 : W
    pub base_text : Text
    pub head_text : Text
    pub out_text : Text
    pub merge_base : Text
    pub names : Text
    pub stats : Text
    pub cloned : r.materialize request w ≡ (ok tt, s1)
    pub has_base : git_text r (has_commit request.base_sha) s1 ≡ (ok base_text, s2)
    pub has_head : git_text r (has_commit request.head_sha) s2 ≡ (ok head_text, s3)
    pub checked_out : git_text r (check_out request.head_sha) s3 ≡ (ok out_text, s4)
    pub at_head : git_text r current_head s4 ≡ (ok request.head_sha, s5)
    pub merged :
        git_text r (merge_base_of request.base_sha request.head_sha) s5 ≡ (ok merge_base, s6)
    pub range : context.diff_range ≡ record { start_sha = merge_base; end_sha = request.head_sha }
    pub named : r.git (diff_of (text "--name-only") context.diff_range) s6 ≡ (ok names, s7)
    pub counted : r.git (diff_of (text "--numstat") context.diff_range) s7 ≡ (ok stats, s8)
    pub patched : r.git (patch_of context.diff_range) s8 ≡ (ok context.primary_diff, w')
    pub for_request : context.request ≡ request
    pub paths_read : context.paths ≡ changed_paths names
    pub files_counted : context.changed_files ≡ length (changed_paths names)
    pub lines_counted : changed_text_lines stats ≡ ok context.changed_text_lines
    pub files_few : context.changed_files ≤ max_changed_files
    pub lines_few : context.changed_text_lines ≤ max_changed_text_lines

  pub passed :
      (test : Bool) (e : Raised) (u : Unit {0}) (w w' : W)
      → or_raise r test e w ≡ (ok u, w')
      → (test ≡ true) × (w ≡ w')
  passed true e u w w' h = (refl, ap (λ p. p.1) h)
  passed false e u w w' h = absurd (cc h)

  pub caught :
      {A : Type 0} (m : Exec W A) (handler : Raised → Raised) (a : A) (w w' : W)
      → catch m (λ e. raise (handler e)) w ≡ (ok a, w')
      → m w ≡ (ok a, w')
  caught m handler a w w' h = ground (arith, h)

  pub lifted :
      {A : Type 0} (x : Result A) (a : A) (w w' : W) → lift x w ≡ (ok a, w') → (x ≡ ok a) × (w ≡ w')
  lifted x a w w' h = (ap (λ p. p.0) h, ap (λ p. p.1) h)

  new_range :
      (a b : Text) (range : DiffRange)
      → diff_range a b ≡ ok range
      → range ≡ record { start_sha = a; end_sha = b }
  new_range a b range h = ground (arith, h)

  -- What was prepared up to the size of the change.
  record IsCloned (context : ReviewContext) (w w' : W) : Type 0 where
    s1 : W
    s2 : W
    s3 : W
    s4 : W
    s5 : W
    s6 : W
    s7 : W
    base_text : Text
    head_text : Text
    out_text : Text
    merge_base : Text
    names : Text
    stats : Text
    cloned : r.materialize request w ≡ (ok tt, s1)
    has_base : git_text r (has_commit request.base_sha) s1 ≡ (ok base_text, s2)
    has_head : git_text r (has_commit request.head_sha) s2 ≡ (ok head_text, s3)
    checked_out : git_text r (check_out request.head_sha) s3 ≡ (ok out_text, s4)
    at_head : git_text r current_head s4 ≡ (ok request.head_sha, s5)
    merged : git_text r (merge_base_of request.base_sha request.head_sha) s5 ≡ (ok merge_base, s6)
    range : context.diff_range ≡ record { start_sha = merge_base; end_sha = request.head_sha }
    named : r.git (diff_of (text "--name-only") context.diff_range) s6 ≡ (ok names, s7)
    counted : r.git (diff_of (text "--numstat") context.diff_range) s7 ≡ (ok stats, w')
    for_request : context.request ≡ request
    paths_read : context.paths ≡ changed_paths names
    files_counted : context.changed_files ≡ length (changed_paths names)
    lines_counted : changed_text_lines stats ≡ ok context.changed_text_lines

  materialized-IsCloned :
      (w : W) → Leads (λ context w'. IsCloned context w w') w (materialized r request)
  unfolding materialized
  materialized-IsCloned w = leads (r.materialize request) _ λ u w1 cloned.
      leads (git_text r (has_commit request.base_sha)) _ λ base_text w2 has_base.
        leads (git_text r (has_commit request.head_sha)) _ λ head_text w3 has_head.
          leads (git_text r (check_out request.head_sha)) _ λ out_text w4 checked_out.
            leads (git_text r current_head) _ λ head w5 asked.
              leads (or_raise r (head == request.head_sha) value_error) _ λ v w6 same.
                leads (git_text r (merge_base_of request.base_sha request.head_sha)) _
                  λ base w7 merged.
                    leads (lift (diff_range base request.head_sha)) _ λ range w8 ranged.
                      leads (r.git (diff_of (text "--name-only") range)) _ λ names w9 named.
                        leads (r.git (diff_of (text "--numstat") range)) _ λ stats w10 counted.
                          leads (lift (changed_text_lines stats))
                            (λ lines. pure (record {
                              request = request;
                              diff_range = range;
                              paths = changed_paths names;
                              changed_files = length (changed_paths names);
                              changed_text_lines = lines;
                              primary_diff = [];
                            }))
                            λ lines w11 read. record {
                              at = λ context w12 h.
                                  let (right, kept) =
                                    passed (head == request.head_sha) value_error v w5 w6 same in
                                  let here = (text_eq_iff head request.head_sha).0 right in
                                  let (made, kept8) =
                                    lifted (diff_range base request.head_sha) range w7 w8 ranged in
                                  let (lined, kept11) =
                                    lifted (changed_text_lines stats) lines w10 w11 read in
                                  let end : w11 ≡ w12 = ap (λ p. p.1) h in
                                  subst (λ (c : ReviewContext). IsCloned c w w12)
                                    (of_ok _ _ (ap (λ p. p.0) h))
                                    (record {
                                      s1 = w1;
                                      s2 = w2;
                                      s3 = w3;
                                      s4 = w4;
                                      s5 = w6;
                                      s6 = w8;
                                      s7 = w9;
                                      base_text = base_text;
                                      head_text = head_text;
                                      out_text = out_text;
                                      merge_base = base;
                                      names = names;
                                      stats = stats;
                                      cloned = cloned;
                                      has_base = has_base;
                                      has_head = has_head;
                                      checked_out = checked_out;
                                      at_head = cc (asked, here, kept);
                                      merged = cc (merged, kept8);
                                      range = new_range base request.head_sha range made;
                                      named = named;
                                      counted = cc (counted, kept11, end);
                                      for_request = refl;
                                      paths_read = refl;
                                      files_counted = refl;
                                      lines_counted = lined;
                                    });
                            }

  pub prepare_context-IsPrepared :
      (w : W) → Leads (λ context w'. IsPrepared context w w') w (prepare_context r request)
  unfolding prepare_context
  prepare_context-IsPrepared w =
      leads (catch (materialized r request) (λ e. raise (preparation_failed e))) _ λ c w1 cloned.
        leads (or_raise r (not (is_too_large c)) too_large) _ λ u w2 small.
          leads (r.git (patch_of c.diff_range)) (λ patch. pure (record c { primary_diff = patch }))
            λ patch w3 patched. record {
              at = λ context w4 h.
                  let k =
                    (materialized-IsCloned w).at c w1
                      (caught (materialized r request) preparation_failed c w w1 cloned) in
                  let (fits, kept) = passed (not (is_too_large c)) too_large u w1 w2 small in
                  let end : w3 ≡ w4 = ap (λ p. p.1) h in
                  subst (λ (x : ReviewContext). IsPrepared x w w4) (of_ok _ _ (ap (λ p. p.0) h))
                    (record {
                      s1 = k.s1;
                      s2 = k.s2;
                      s3 = k.s3;
                      s4 = k.s4;
                      s5 = k.s5;
                      s6 = k.s6;
                      s7 = k.s7;
                      s8 = w2;
                      base_text = k.base_text;
                      head_text = k.head_text;
                      out_text = k.out_text;
                      merge_base = k.merge_base;
                      names = k.names;
                      stats = k.stats;
                      cloned = k.cloned;
                      has_base = k.has_base;
                      has_head = k.has_head;
                      checked_out = k.checked_out;
                      at_head = k.at_head;
                      merged = k.merged;
                      range = k.range;
                      named = k.named;
                      counted = cc (k.counted, kept);
                      patched = cc (patched, end);
                      for_request = k.for_request;
                      paths_read = k.paths_read;
                      files_counted = k.files_counted;
                      lines_counted = k.lines_counted;
                      files_few = ground (arith, fits);
                      lines_few = ground (arith, fits);
                    });
            }
