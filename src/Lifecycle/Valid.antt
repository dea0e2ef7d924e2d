-- ===== src/Lifecycle/Valid.antt =====
-- The invariant of the lifecycle: claims and their owners match, and the capacity is kept.
use specode_review.Base.{◌+◌, ◌≤◌, ◌≡◌, length, nat_equal, text_equal}
use specode_review.Base.Dict.{lookup, count, weight, IsDistinct}
use specode_review.Revision.{AcceptedRevision, revision_equal}
use specode_review.Lifecycle.{stopped, is_running}
use specode_review.Lifecycle.Counts.{is_preflight, owners_of, IsBelow}
use specode_review.Lifecycle.Steps.{System}

pub record IsValid (s : System) : Type 0 where
  -- No revision is claimed twice.
  pub distinct : IsDistinct s.lifecycle.claims
  -- A claim in preflight has one waiting submission, a running one one task, and no other has any.
  pub waiting_own :
      (r : AcceptedRevision)
      → owners_of r s.waiting ≡ weight is_preflight (lookup r s.lifecycle.claims)
  pub tasks_own :
      (r : AcceptedRevision)
      → owners_of r s.lifecycle.tasks ≡ weight is_running (lookup r s.lifecycle.claims)
  pub waiting_length : length s.waiting ≡ count is_preflight s.lifecycle.claims
  pub tasks_length : length s.lifecycle.tasks ≡ count is_running s.lifecycle.claims
  pub within_capacity : length s.lifecycle.tasks ≤ s.lifecycle.max_reviews
  pub calls_below : IsBelow s.next_call s.waiting
  pub tasks_below : IsBelow s.lifecycle.next_task s.lifecycle.tasks
  pub stopped_idle : s.lifecycle.state ≡ stopped → length s.waiting + length s.lifecycle.tasks ≡ 0
