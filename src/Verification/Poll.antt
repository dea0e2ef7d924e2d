-- ===== src/Verification/Poll.antt =====
-- How long the verifier waits for the URL of the webhook.
use specode_review.Base.{
  ℕ, zero, suc, ◌+◌, ◌-◌, ◌≤◌, ◌<◌, ◌≡◌, ◌≢◌, ◌||◌, Option, none, arith, Text, text_equal, ◌==◌,
  leb, min, Bool-cases, inl, inr,
}
use specode_review.Errors.{Result, ok}
use specode_review.Exec.Leads.{Ends, ends}
use specode_review.Verification.Host.{Host}
use specode_review.Verification.Verifier.{poll_webhook}

-- A count of the time that was slept: a pause adds at most its time, a look at the URL adds nothing.
pub record Counts {W : Type 0} (host : Host W) (slept : W → ℕ) : Type 0 where
  pub pauses : (ms : ℕ) (w : W) → slept (host.sleep ms w).1 ≤ slept w + ms
  pub looks : (w : W) → slept (host.webhook_url w).1 ≡ slept w

module _ {W : Type 0} (host : Host W) (slept : W → ℕ) (counts : Counts host slept) where
  abbrev Waited : W → ℕ → Result (Option Text) → W → Type 0
  Waited w remaining r w' = (slept w' ≤ slept w + remaining) × (r ≢ ok none)

  waited :
      (turns remaining : ℕ) (expected current : Text) (w : W)
      → 0 < host.webhook_poll
      → remaining < turns
      → Ends (Waited w remaining) w (poll_webhook host turns remaining expected current)
  unfolding poll_webhook
  waited zero remaining expected current w pos enough = absurd (omega arith)
  waited (suc turns) remaining expected current w pos enough =
      elim (Bool-cases ((current == expected) || leb remaining 0)) [
        | inl over ↦ rw over (record { at = (omega arith, λ h. cc h) })
        | inr on ↦ rw on (
            ends (host.sleep (min host.webhook_poll remaining)) _
              (λ u w1 paused.
                ends host.webhook_url
                  (poll_webhook host turns (remaining - min host.webhook_poll remaining) expected)
                  (λ now w2 looked.
                    let m = min host.webhook_poll remaining in
                    let still : slept w2 ≡ slept w1 = ground (arith, looked, counts.looks w1) in
                    let longer : slept w1 ≤ slept w + m =
                      ground (arith, paused, counts.pauses m w) in
                    let some_left : 0 < remaining = ground (arith, on) in
                    let (bound, never) =
                      (waited turns (remaining - m) expected now w2 pos (omega arith)).at in
                    record { at = (omega (arith, bound, still, longer), never) })
                  (λ e w2 h. (
                    ground (
                      arith,
                      paused,
                      h,
                      counts.looks w1,
                      counts.pauses (min host.webhook_poll remaining) w,
                    ),
                    λ k. cc k,
                  )))
              (λ e w1 h.
                (ground (arith, h, counts.pauses (min host.webhook_poll remaining) w), λ k. cc k)))
      ]

  -- However the wait for the URL of the webhook ends, it has slept at most the time that it is given, and
  -- with one turn more than that has milliseconds it does not come to the end of its fuel.
  pub poll_webhook_waits :
      (remaining : ℕ) (expected current : Text) (w : W)
      → 0 < host.webhook_poll
      → (slept (poll_webhook host (suc remaining) remaining expected current w).1
          ≤ slept w + remaining)
        × ((poll_webhook host (suc remaining) remaining expected current w).0 ≢ ok none)
  poll_webhook_waits remaining expected current w pos =
      (waited (suc remaining) remaining expected current w pos (omega arith)).at
