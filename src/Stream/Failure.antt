-- ===== src/Stream/Failure.antt =====
-- What `fail` decides: to end with the error, or to wait for the delay of the schedule.
use preconfs_client.Prelude.{
  ℕ, ◌≤◌, ◌<◌, ◌≡◌, ◌⊎◌, inl, inr, sym, ap, ◌∙◌, arith, tests, ltb, ltb-false→le, Bool, true, false,
  not, ◌||◌, Option, none, some, if-true, if-false, Option-cases, Bool-cases, none-ne-some,
}
use preconfs_client.Errors.{StreamError}
use preconfs_client.Reconnect.{Reconnect, interval, exhausted, retryable}
use preconfs_client.Stream.{Deps, EventStream, waiting, ended, fail_with, fail_in, fail}
use preconfs_client.Stream.Protocol.{after_failure}

module _ {Client Status : Type 0} (deps : Deps Client Status) where
  open deps use {code, float, io}

  -- Retrying cannot help, or the failures exhaust the schedule.
  abbrev pub is_final : Reconnect float → EventStream deps → StreamError Status → Bool
  is_final r s error = not (retryable code error) || exhausted float r (after_failure s.attempts)

  module _ (s : EventStream deps) (error : StreamError Status) (w : io.World) where
    pub fail-unscheduled :
        s.reconnect ≡ none → fail deps s error w ≡ (some error, record s { state = ended }, w)
    unfolding fail fail_in
    fail-unscheduled e = ap (λ o. fail_in deps o s error w) e

    pub fail-final :
        (r : Reconnect float)
        → s.reconnect ≡ some r
        → is_final r s error ≡ true
        → fail deps s error w
          ≡ (some error, record s { attempts = after_failure s.attempts; state = ended }, w)
    unfolding fail fail_in fail_with
    fail-final r e t = ap (λ o. fail_in deps o s error w) e ∙ if-true (is_final r s error) _ _ t

    pub fail-waits :
        (r : Reconnect float)
        → s.reconnect ≡ some r
        → is_final r s error ≡ false
        → let timer = io.sleep (interval float r (after_failure s.attempts)) w in
          fail deps s error w ≡ (
            none,
            record s { attempts = after_failure s.attempts; state = waiting timer.0 },
            timer.1,
          )
    unfolding fail fail_in fail_with
    fail-waits r e t = ap (λ o. fail_in deps o s error w) e ∙ if-false (is_final r s error) _ _ t

    -- The budget of a schedule, as the comparison of the source has it.
    abbrev pub OutOfRetries : Reconnect float → ℕ → Type 0
    OutOfRetries r n = (max : ℕ) × (r.max_retries ≡ some max) × (max < n)

    exhausted_cases :
        (r : Reconnect float) (n : ℕ)
        → ((exhausted float r n ≡ true) × OutOfRetries r n)
          ⊎ ((exhausted float r n ≡ false) × ((max : ℕ) → r.max_retries ≡ some max → n ≤ max))
    unfolding exhausted
    exhausted_cases r n = elim (Option-cases r.max_retries) [
      | inl e ↦ inr (ground arith, λ max h. absurd (none-ne-some (sym e ∙ h)))
      | inr (max, e) ↦ elim (Bool-cases (ltb max n)) [
        | inl over ↦ inl (ground arith, (max, e, omega tests))
        | inr under ↦ inr (ground arith, λ x h. ground (arith, ltb-false→le max n under))
      ]
    ]

    -- The answer of a failure that is retried.
    abbrev pub slept : Reconnect float → Option (StreamError Status) × EventStream deps × io.World
    slept r =
        let timer = io.sleep (interval float r (after_failure s.attempts)) w in
        (none, record s { attempts = after_failure s.attempts; state = waiting timer.0 }, timer.1)

    -- What `fail` answers, and when.
    pub data Failed (answer : Option (StreamError Status) × EventStream deps × io.World)
        : Type 0 where
      unscheduled :
          s.reconnect ≡ none → answer ≡ (some error, record s { state = ended }, w) → Failed answer
      given_up :
          (r : Reconnect float)
          → s.reconnect ≡ some r
          → (retryable code error ≡ false) ⊎ OutOfRetries r (after_failure s.attempts)
          → answer
            ≡ (some error, record s { attempts = after_failure s.attempts; state = ended }, w)
          → Failed answer
      waits :
          (r : Reconnect float)
          → s.reconnect ≡ some r
          → retryable code error ≡ true
          → ((max : ℕ) → r.max_retries ≡ some max → after_failure s.attempts ≤ max)
          → answer ≡ slept r
          → Failed answer

    -- `fail` hands the error on and ends the stream if there is no schedule, if the error cannot be
    -- retried or if the failures, with this one, are more than the limit; otherwise it counts the
    -- failure, arms a timer for the delay of the schedule at that count, and keeps the error.
    pub fail-Failed : Failed (fail deps s error w)
    fail-Failed = elim (Option-cases s.reconnect) [
      | inl e ↦ unscheduled e (fail-unscheduled e)
      | inr (r, e) ↦ elim (Bool-cases (retryable code error)) [
        | inr lost ↦ given_up r e (inl lost) (fail-final r e (ground arith))
        | inl hope ↦ elim (exhausted_cases r (after_failure s.attempts)) [
          | inl (out, over) ↦ given_up r e (inr over) (fail-final r e (ground (arith, out)))
          | inr (left, under) ↦ waits r e hope under (fail-waits r e (ground (arith, left)))
        ]
      ]
    ]
