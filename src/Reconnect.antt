-- ===== src/Reconnect.antt =====
-- preconfs-client/src/reconnect.rs: the retry schedule and the errors that it retries. A `Duration`
-- is its number of nanoseconds; f64 and its conversions are the parameter `Float`.
pub mod Tests
mod Suite
pub mod Backoff
use preconfs_client.Prelude.{
  ℕ, ◌-◌, ◌*◌, Bool, true, false, Option, none, some, ltb, map_or, min, if◌then◌else◌,
}
use preconfs_client.Errors.{
  Code, cancelled, unknown, deadline_exceeded, resource_exhausted, aborted, internal, unavailable,
  data_loss, StreamError, closed,
}

-- What the schedule uses of f64 and of the conversions of `Duration`.
pub record Float : Type 1 where
  pub F : Type 0
  pub one : F
  pub two : F
  pub mul : F → F → F
  pub powi : F → ℕ → F  -- the exponents here are not negative
  pub fmax : F → F → F
  pub as_secs_f64 : ℕ → F
  pub try_from_secs_f64 : F → Option ℕ

pub record Reconnect (float : Float) : Type 0 where
  pub initial_interval : ℕ
  pub multiplier : float.F
  pub max_interval : ℕ
  pub max_retries : Option ℕ  -- u32

-- Duration::from_millis and Duration::from_secs
abbrev pub from_millis : ℕ → ℕ
from_millis n = n * 1000000

abbrev pub from_secs : ℕ → ℕ
from_secs n = n * 1000000000

abbrev pub i32_max : ℕ
i32_max = 2147483647

-- `i32::try_from(attempt.saturating_sub(1)).unwrap_or(i32::MAX)`
abbrev pub exponent : ℕ → ℕ
exponent attempt = if ltb i32_max (attempt - 1) then i32_max else attempt - 1

module _ (float : Float) where
  open float use {F, one, two, mul, powi, fmax, as_secs_f64, try_from_secs_f64}

  -- Default for Reconnect
  unfoldable pub default : Reconnect float
  default = record {
    initial_interval = from_millis 100;
    multiplier = two;
    max_interval = from_secs 10;
    max_retries = none;
  }

  unfoldable pub initial_interval : Reconnect float → ℕ → Reconnect float
  initial_interval self interval = record self { initial_interval = interval }

  unfoldable pub multiplier : Reconnect float → F → Reconnect float
  multiplier self factor = record self { multiplier = factor }

  unfoldable pub max_interval : Reconnect float → ℕ → Reconnect float
  max_interval self interval = record self { max_interval = interval }

  unfoldable pub max_retries : Reconnect float → Option ℕ → Reconnect float
  max_retries self retries = record self { max_retries = retries }

  abbrev pub factor : Reconnect float → ℕ → F
  factor self attempt = fmax (powi self.multiplier (exponent attempt)) one

  unfoldable pub interval : Reconnect float → ℕ → ℕ
  interval self attempt =
      map_or self.max_interval (λ delay. min delay self.max_interval)
        (try_from_secs_f64 (mul (as_secs_f64 self.initial_interval) (factor self attempt)))

  unfoldable pub exhausted : Reconnect float → ℕ → Bool
  exhausted self attempts = elim self.max_retries [ none ↦ false | some max ↦ ltb max attempts ]

-- `retryable_status`, on the code of the status
unfoldable pub retryable_code : Code → Bool
retryable_code unavailable = true
retryable_code data_loss = true
retryable_code resource_exhausted = true
retryable_code internal = true
retryable_code unknown = true
retryable_code aborted = true
retryable_code cancelled = true
retryable_code deadline_exceeded = true
retryable_code _ = false

unfoldable pub retryable : {Status : Type 0} → (Status → Code) → StreamError Status → Bool
unfolding retryable_code
retryable code closed = true
retryable code (StreamError.status s) = retryable_code (code s)
