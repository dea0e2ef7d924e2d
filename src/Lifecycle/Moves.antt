-- ===== src/Lifecycle/Moves.antt =====
-- Each way in which a claim and its owner move keeps the invariant.
use specode_review.Base.{ℕ, suc, ◌<◌, ◌≡◌, ◌≢◌, ◌==◌, none, some, arith, nat_equal, text_equal}
use specode_review.Base.Dict.{
  lookup, insert, pop, count, lookup-insert, lookup-pop, insert-IsDistinct, pop-IsDistinct,
  count-insert, count-pop, length-pop,
}
use specode_review.Revision.{AcceptedRevision, revision_equal}
use specode_review.Lifecycle.{stopped, preflight, running, is_running, finish_run}
use specode_review.Lifecycle.Counts.{
  is_preflight, lookup-IsBelow, length-insert_fresh, insert-IsBelow, pop-IsBelow,
}
use specode_review.Lifecycle.Steps.{System, finish_task}
use specode_review.Lifecycle.Valid.{IsValid}

-- The one waiting submission of a revision shows that its claim is in preflight.
pub waiting-claimed :
    (call : ℕ) (r : AcceptedRevision) (s : System)
    → IsValid s
    → lookup call s.waiting ≡ some r
    → lookup r s.lifecycle.claims ≡ some preflight
waiting-claimed call r s v h =
    ground (
      arith,
      count-pop (λ t. r == t) call s.waiting,
      v.waiting_own r,
      revision_equal.equals_iff r r,
    )

pub task-claimed :
    (task : ℕ) (r : AcceptedRevision) (s : System)
    → IsValid s
    → lookup task s.lifecycle.tasks ≡ some r
    → lookup r s.lifecycle.claims ≡ some running
task-claimed task r s v h = ground (
  arith,
  count-pop (λ t. r == t) task s.lifecycle.tasks,
  v.tasks_own r,
  revision_equal.equals_iff r r,
)

-- A free revision is claimed, for a submission that waits.
pub claim-IsValid :
    (r : AcceptedRevision) (s : System)
    → IsValid s
    → s.lifecycle.state ≢ stopped
    → lookup r s.lifecycle.claims ≡ none
    → IsValid (record s {
      lifecycle = record s.lifecycle { claims = insert r preflight s.lifecycle.claims };
      waiting = insert s.next_call r s.waiting;
      next_call = suc s.next_call;
    })
claim-IsValid r s v alive free =
    let fresh = lookup-IsBelow s.next_call s.waiting v.calls_below in
    record {
      distinct = insert-IsDistinct r preflight s.lifecycle.claims v.distinct;
      waiting_own = λ t. ground (
        arith,
        v.waiting_own t,
        fresh,
        count-insert (λ u. t == u) s.next_call r s.waiting,
        lookup-insert t r preflight s.lifecycle.claims,
        revision_equal.equals_iff t r,
      );
      tasks_own = λ t. ground (
        arith,
        v.tasks_own t,
        lookup-insert t r preflight s.lifecycle.claims,
        revision_equal.equals_iff t r,
      );
      waiting_length = ground (
        arith,
        v.waiting_length,
        length-insert_fresh s.next_call r s.waiting v.calls_below,
        count-insert is_preflight r preflight s.lifecycle.claims,
      );
      tasks_length =
          ground (arith, v.tasks_length, count-insert is_running r preflight s.lifecycle.claims);
      within_capacity = v.within_capacity;
      calls_below = insert-IsBelow s.next_call r s.waiting v.calls_below;
      tasks_below = v.tasks_below;
      stopped_idle = λ e. absurd (alive e);
    }

-- A waiting submission gives its claim up.
pub give_up-IsValid :
    (call : ℕ) (r : AcceptedRevision) (s : System)
    → IsValid s
    → lookup call s.waiting ≡ some r
    → IsValid (record s {
      lifecycle = record s.lifecycle { claims = pop r s.lifecycle.claims };
      waiting = pop call s.waiting;
    })
give_up-IsValid call r s v h =
    let claimed = waiting-claimed call r s v h in
    record {
      distinct = pop-IsDistinct r s.lifecycle.claims v.distinct;
      waiting_own = λ t. ground (
        arith,
        v.waiting_own t,
        claimed,
        count-pop (λ u. t == u) call s.waiting,
        lookup-pop t r s.lifecycle.claims v.distinct,
        revision_equal.equals_iff t r,
      );
      tasks_own = λ t. ground (
        arith,
        v.tasks_own t,
        claimed,
        lookup-pop t r s.lifecycle.claims v.distinct,
        revision_equal.equals_iff t r,
      );
      waiting_length = ground (
        arith,
        v.waiting_length,
        claimed,
        length-pop call r s.waiting h,
        count-pop is_preflight r s.lifecycle.claims,
      );
      tasks_length =
          ground (arith, v.tasks_length, claimed, count-pop is_running r s.lifecycle.claims);
      within_capacity = v.within_capacity;
      calls_below = pop-IsBelow s.next_call call s.waiting v.calls_below;
      tasks_below = v.tasks_below;
      stopped_idle = λ e. ground (arith, v.stopped_idle e, length-pop call r s.waiting h);
    }

-- A waiting submission becomes a running review, below the capacity.
pub start_review-IsValid :
    (call : ℕ) (r : AcceptedRevision) (s : System)
    → IsValid s
    → s.lifecycle.state ≢ stopped
    → count is_running s.lifecycle.claims < s.lifecycle.max_reviews
    → lookup call s.waiting ≡ some r
    → IsValid (record s {
      lifecycle = record s.lifecycle {
        claims = insert r running s.lifecycle.claims;
        tasks = insert s.lifecycle.next_task r s.lifecycle.tasks;
        next_task = suc s.lifecycle.next_task;
      };
      waiting = pop call s.waiting;
    })
start_review-IsValid call r s v alive room h =
    let claimed = waiting-claimed call r s v h in
    let fresh = lookup-IsBelow s.lifecycle.next_task s.lifecycle.tasks v.tasks_below in
    let more = length-insert_fresh s.lifecycle.next_task r s.lifecycle.tasks v.tasks_below in
    record {
      distinct = insert-IsDistinct r running s.lifecycle.claims v.distinct;
      waiting_own = λ t. ground (
        arith,
        v.waiting_own t,
        claimed,
        count-pop (λ u. t == u) call s.waiting,
        lookup-insert t r running s.lifecycle.claims,
        revision_equal.equals_iff t r,
      );
      tasks_own = λ t. ground (
        arith,
        v.tasks_own t,
        claimed,
        fresh,
        count-insert (λ u. t == u) s.lifecycle.next_task r s.lifecycle.tasks,
        lookup-insert t r running s.lifecycle.claims,
        revision_equal.equals_iff t r,
      );
      waiting_length = ground (
        arith,
        v.waiting_length,
        claimed,
        length-pop call r s.waiting h,
        count-insert is_preflight r running s.lifecycle.claims,
      );
      tasks_length = ground (
        arith,
        v.tasks_length,
        claimed,
        more,
        count-insert is_running r running s.lifecycle.claims,
      );
      within_capacity = omega (arith, more, v.tasks_length);
      calls_below = pop-IsBelow s.next_call call s.waiting v.calls_below;
      tasks_below = insert-IsBelow s.lifecycle.next_task r s.lifecycle.tasks v.tasks_below;
      stopped_idle = λ e. absurd (alive e);
    }

-- A review ends.
pub finish_task-IsValid :
    (task : ℕ) (r : AcceptedRevision) (s : System)
    → IsValid s
    → lookup task s.lifecycle.tasks ≡ some r
    → IsValid (finish_task task r s)
unfolding finish_task finish_run
finish_task-IsValid task r s v h =
    let claimed = task-claimed task r s v h in
    record {
      distinct = pop-IsDistinct r s.lifecycle.claims v.distinct;
      waiting_own = λ t. ground (
        arith,
        v.waiting_own t,
        claimed,
        lookup-pop t r s.lifecycle.claims v.distinct,
        revision_equal.equals_iff t r,
      );
      tasks_own = λ t. ground (
        arith,
        v.tasks_own t,
        claimed,
        count-pop (λ u. t == u) task s.lifecycle.tasks,
        lookup-pop t r s.lifecycle.claims v.distinct,
        revision_equal.equals_iff t r,
      );
      waiting_length =
          ground (arith, v.waiting_length, claimed, count-pop is_preflight r s.lifecycle.claims);
      tasks_length = ground (
        arith,
        v.tasks_length,
        claimed,
        length-pop task r s.lifecycle.tasks h,
        count-pop is_running r s.lifecycle.claims,
      );
      within_capacity = omega (arith, length-pop task r s.lifecycle.tasks h, v.within_capacity);
      calls_below = v.calls_below;
      tasks_below = pop-IsBelow s.lifecycle.next_task task s.lifecycle.tasks v.tasks_below;
      stopped_idle = λ e. ground (arith, v.stopped_idle e, length-pop task r s.lifecycle.tasks h);
    }
