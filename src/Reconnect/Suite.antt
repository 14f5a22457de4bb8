-- ===== src/Reconnect/Suite.antt =====
-- preconfs-client/src/reconnect.rs: the unit tests of the module, each as the product of what it asserts.
use preconfs_client.Prelude.{ap, ◌≡◌, refl, true, false, some}
use preconfs_client.Errors.{
  Code, StreamError, closed, unavailable, resource_exhausted, unauthenticated, invalid_argument,
}
use preconfs_client.Reconnect.{
  Float, default, interval, exhausted, max_retries, from_millis, from_secs, retryable,
  retryable_code,
}
use preconfs_client.Reconnect.Tests.{maybe_numbers}

abbrev BackoffGrowsAndCaps : Float → Type 0
BackoffGrowsAndCaps float =
    (interval float (default float) 1 ≡ from_millis 100)
    × (interval float (default float) 2 ≡ from_millis 200)
    × (interval float (default float) 4 ≡ from_millis 800)
    × (interval float (default float) 20 ≡ from_secs 10)
    × (interval float (default float) 69 ≡ from_secs 10)
    × (interval float (default float) 4294967295 ≡ from_secs 10)
    × (exhausted float (default float) 1000 ≡ false)
    × (exhausted float (max_retries float (default float) (some 3)) 3 ≡ false)
    × (exhausted float (max_retries float (default float) (some 3)) 4 ≡ true)

-- The test passes on the floats of Reconnect.Tests.
backoff_grows_and_caps : BackoffGrowsAndCaps maybe_numbers
unfolding default exhausted max_retries interval
backoff_grows_and_caps = (refl, refl, refl, refl, refl, refl, refl, refl, refl)

-- `Status::unavailable` and the like are statuses with the code and some message.
abbrev RequestErrorsAreTerminalAndOutagesAreNot :
    {Status : Type 0} → (Status → Code) → (Code → Status) → Type 0
RequestErrorsAreTerminalAndOutagesAreNot code new =
    (retryable code closed ≡ true)
    × (retryable code (StreamError.status (new unavailable)) ≡ true)
    × (retryable code (StreamError.status (new resource_exhausted)) ≡ true)
    × (retryable code (StreamError.status (new unauthenticated)) ≡ false)
    × (retryable code (StreamError.status (new invalid_argument)) ≡ false)

request_errors_are_terminal_and_outages_are_not :
    {Status : Type 0} (code : Status → Code) (new : Code → Status)
    → ((c : Code) → code (new c) ≡ c)
    → RequestErrorsAreTerminalAndOutagesAreNot code new
unfolding retryable retryable_code
request_errors_are_terminal_and_outages_are_not code new coded = (
  refl,
  ap retryable_code (coded unavailable),
  ap retryable_code (coded resource_exhausted),
  ap retryable_code (coded unauthenticated),
  ap retryable_code (coded invalid_argument),
)
