-- ===== src/Verification/Served.antt =====
-- A wait for the URL of the webhook that passes was told the URL by GitHub.
use mathlib.Core.Path.{subst}
use specode_review.Base.{
  ℕ, zero, suc, ◌-◌, ◌<◌, ◌≡◌, refl, ap, ◌∙◌, ◌||◌, Option, none, some, arith, Text, text_equal,
  text_eq_iff, ◌==◌, leb, min, Bool-cases, inl, inr,
}
use specode_review.Errors.{Raised, Result, ok, err}
use specode_review.Exec.{Exec, raise, catch}
use specode_review.Exec.Leads.{Leads, leads}
use specode_review.Verification.Host.{Host, Settings, fails_at, both, after_cleanup}
use specode_review.Verification.Verifier.{
  github_failed, poll_webhook, compare_webhook, watch_webhook, verify_github,
}

pub caught :
    {W A : Type 0} (m : Exec W A) (handler : Raised → Raised) (a : A) (w w' : W)
    → catch m (λ e. raise (handler e)) w ≡ (ok a, w')
    → m w ≡ (ok a, w')
caught m handler a w w' h = ground (arith, h)

pair_of : {A B : Type 0} {a : A} {b : B} (p : A × B) → p.0 ≡ a → p.1 ≡ b → p ≡ (a, b)
pair_of (x, y) e f = cc

ends_ok :
    {A : Type 0} (r : Result A) (end : Result (Unit {0})) (a : A)
    → after_cleanup r end ≡ ok a
    → (r ≡ ok a) × (end ≡ ok tt)
ends_ok r (ok u) a h = (h, refl)
ends_ok r (err e) a h = absurd (cc h)

before_cleanup :
    {W A : Type 0} (m : Exec W A) (cleanup : Exec W (Unit {0})) (a : A) (w w' : W)
    → both m cleanup w ≡ (ok a, w')
    → (w1 : W) × (m w ≡ (ok a, w1)) × (cleanup w1 ≡ (ok tt, w'))
before_cleanup {W} {A} m cleanup a w w' h = go (m w) refl h
  where
    go :
        (p : Result A × W)
        → m w ≡ p
        → ◌≡◌ {A = Result A × W} (after_cleanup p.0 (cleanup p.1).0, (cleanup p.1).1) (ok a, w')
        → (w1 : W) × (m w ≡ (ok a, w1)) × (cleanup w1 ≡ (ok tt, w'))
    go (r, w1) e k =
        let (first, last) = ends_ok r (cleanup w1).0 a (ap (λ p. p.0) k) in
        (w1, cc (e, first), pair_of (cleanup w1) last (ap (λ p. p.1) k))

module _ {W : Type 0} (host : Host W) where
  -- The way from one state to another by looks at the URL, each with a pause after it.
  pub data Asked : W → W → Type 0 where
    at_once : (w : W) → Asked w w
    later :
        {w v u t : W} (ms : ℕ) (url : Text)
        → host.webhook_url w ≡ (ok url, v)
        → host.sleep ms v ≡ (ok tt, u)
        → Asked u t
        → Asked w t

  -- The way begins with a look at the URL, and the last look of it gave the URL.
  abbrev pub IsServed : Text → W → W → Type 0
  IsServed url w w' = (v : W) × Asked w v × (host.webhook_url v ≡ (ok url, w'))

  value_of : {A : Type 0} → A → Result A → A
  value_of a (ok x) = x
  value_of a (err e) = a

  abbrev Served : W → Option Text → W → Type 0
  Served w none w' = ⊥
  Served w (some url) w' = IsServed url w w'

  -- One look and one pause before what follows.
  Served-later :
      {w v u : W} (ms : ℕ) (url : Text)
      → host.webhook_url w ≡ (ok url, v)
      → host.sleep ms v ≡ (ok tt, u)
      → (o : Option Text) (w' : W) → Served u o w'
      → Served w o w'
  Served-later ms url looked slept none w' served = served
  Served-later ms url looked slept (some last) w' (t, asked, found) =
      (t, later ms url looked slept asked, found)

  -- The last URL of the wait was served.
  polled :
      (turns remaining : ℕ) (expected current : Text) (w0 w : W)
      → 0 < host.webhook_poll
      → remaining < turns
      → host.webhook_url w0 ≡ (ok current, w)
      → Leads (Served w0) w (poll_webhook host turns remaining expected current)
  unfolding poll_webhook value_of
  polled zero remaining expected current w0 w pos enough looked = absurd (omega arith)
  polled (suc turns) remaining expected current w0 w pos enough looked =
      elim (Bool-cases ((current == expected) || leb remaining 0)) [
        | inl over ↦ rw over (record {
          at = λ o w' h.
              subst (λ x. Served w0 x w') (ap (λ p. value_of none p.0) h)
                (w0, at_once w0, looked ∙ ap (λ (x : W). (ok current, x)) (ap (λ p. p.1) h));
        })
        | inr on ↦ rw on (
            leads (host.sleep (min host.webhook_poll remaining)) _ λ u w1 slept.
              leads host.webhook_url
                (poll_webhook host turns (remaining - min host.webhook_poll remaining) expected)
                λ now w2 again.
                  let some_left : 0 < remaining = ground (arith, on) in
                  let rest =
                    polled turns (remaining - min host.webhook_poll remaining) expected now w1 w2
                      pos (omega arith) again in
                  record {
                    at = λ o w' h.
                        Served-later (min host.webhook_poll remaining) current looked slept o w'
                          (rest.at o w' h);
                  })
      ]

  compared :
      (expected : Text) (last : Option Text) (w0 w : W)
      → Served w0 last w
      → Leads
          (λ (u : Unit {0}) (w' : W). IsServed expected w0 w')
          w
          (compare_webhook host expected last)
  unfolding value_of
  compared expected none w0 w served = elim served [ ]
  compared expected (some current) w0 w served = elim (Bool-cases (current == expected)) [
    | inl same ↦ rw same (record {
      at = λ u w' h.
          subst (IsServed expected w0) (ap (λ p. p.1) h)
            (subst (λ (x : Text). IsServed x w0 w) ((text_eq_iff current expected).0 same) served);
    })
    | inr other ↦ rw other (record { at = λ u w' h. absurd (cc h) })
  ]

  watched :
      (expected : Text) (w : W)
      → 0 < host.webhook_poll
      → Leads (λ (u : Unit {0}) (w' : W). IsServed expected w w') w (watch_webhook host expected)
  unfolding watch_webhook
  watched expected w pos = leads host.webhook_url _ λ current w1 looked.
      leads (poll_webhook host (suc host.webhook_wait) host.webhook_wait expected current)
        (compare_webhook host expected)
        λ last w2 ended. compared expected last w w2 (
          (polled (suc host.webhook_wait) host.webhook_wait expected current w w1 pos (omega arith)
              looked).at
            last w2 ended)

  -- From the start of the look at GitHub to its end: the client is made, the URL is looked at until it
  -- is the expected one, and the client is closed.
  abbrev pub GithubProven : Settings → W → W → Type 0
  GithubProven s w w' =
      (v u : W) × (host.github s.app_id w ≡ (ok tt, v))
      × IsServed s.public_webhook_url v u
      × (host.close u ≡ (ok tt, w'))

  pub github-GithubProven :
      (s : Settings) (w : W)
      → 0 < host.webhook_poll
      → Leads (λ (u : Unit {0}) (w' : W). GithubProven s w w') w (verify_github host s)
  unfolding verify_github
  github-GithubProven s w pos = leads (host.github s.app_id) _ λ _ w1 made. record {
    at = λ u w' h.
        let (w2, end, closed) =
          before_cleanup
            (catch (watch_webhook host s.public_webhook_url) (λ e. raise (github_failed e)))
            (catch host.close (λ e. raise (fails_at "github_app" e))) u w1 w' h in
        (
          w1,
          w2,
          made,
          (watched s.public_webhook_url w1 pos).at u w2
              (caught (watch_webhook host s.public_webhook_url) github_failed u w1 w2 end),
          caught host.close (fails_at "github_app") tt w2 w' closed,
        );
  }
