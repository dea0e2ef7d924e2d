-- ===== src/Deadline.antt =====
-- src/specode_review/deadline.py: the deadline of a review, and the time that is left of it. Times are
-- milliseconds of the monotonic clock.
use Prim.Native.String.{String}
use specode_review.Base.{ℕ, ◌+◌, ◌-◌, Option, none, some, leb, if◌then◌else◌}
use specode_review.Errors.{timeout, review_error, value_error, Result, ok, err}
use specode_review.Exec.{Exec}

pub record ReviewDeadline : Type 0 where
  pub expires_at : ℕ

-- `ReviewDeadline.after`, at the time `now`; a timeout below zero is as one of zero.
unfoldable pub after : ℕ → ℕ → Result ReviewDeadline
after now timeout_ms =
    if leb timeout_ms 0 then err value_error else ok (record { expires_at = now + timeout_ms })

-- `ReviewDeadline.remaining`
unfoldable pub remaining : ℕ → String → ReviewDeadline → Result ℕ
remaining now stage deadline =
    if leb deadline.expires_at now
    then err (review_error (record { category = timeout; stage = stage }))
    else ok (deadline.expires_at - now)

-- `remaining_review_time`, with the active deadline and the clock of the state.
unfoldable pub remaining_review_time :
    {W : Type 0} → Option ReviewDeadline → (W → ℕ) → String → Exec W (Option ℕ)
unfolding remaining
remaining_review_time none clock stage w = (ok none, w)
remaining_review_time (some deadline) clock stage w =
    (elim (remaining (clock w) stage deadline) [ ok left ↦ ok (some left) | err e ↦ err e ], w)
