-- ===== src/Warehouse/Breaker.antt =====
-- backend/circuit_breaker.py. A clock reading is a number of ticks, and `_last_failure_time` one;
-- every method runs under the breaker's lock, so a method is one step from a state to the next.
pub mod Laws
use bricktrace.Prelude.{ℕ, ◌+◌, Option, none, some, leb, ltb, if◌then◌else◌}
use bricktrace.Prelude.Int.{ℤ, sub_ℕ}

pub data CircuitState : Type 0 where
  closed opened half_open : CircuitState

pub record CircuitBreaker : Type 0 where
  pub failure_threshold : ℕ
  pub recovery_timeout : ℕ
  pub state : CircuitState
  pub failure_count : ℕ
  pub last_failure_time : ℕ

-- `HTTPException` with its status.
pub data Failure : Type 0 where
  service_unavailable : Failure

unfoldable pub init : ℕ → ℕ → CircuitBreaker
init failure_threshold recovery_timeout = record {
  failure_threshold = failure_threshold;
  recovery_timeout = recovery_timeout;
  state = closed;
  failure_count = 0;
  last_failure_time = 0;
}

-- The property `state`, read at the time `now`: it may move the breaker to `half_open`.
-- `now - last >= timeout` is written as a sum, since the clock may stand before the last failure.
unfoldable pub read_state : ℕ → CircuitBreaker → CircuitBreaker × CircuitState
read_state now b = elim b.state [
  | opened ↦
      if leb (b.last_failure_time + b.recovery_timeout) now
      then (record b { state = half_open }, half_open)
      else (b, opened)
  | other ↦ (b, other)
]

refuse : CircuitState → Option Failure
refuse opened = some service_unavailable
refuse _ = none

-- `none` is a plain return, `some` the exception.
unfoldable pub check : ℕ → CircuitBreaker → CircuitBreaker × Option Failure
unfolding read_state refuse
check now b = let (b', current) = read_state now b in (b', refuse current)

unfoldable pub record_success : CircuitBreaker → CircuitBreaker
record_success b = record b { state = closed; failure_count = 0 }

unfoldable pub record_failure : ℕ → CircuitBreaker → CircuitBreaker
record_failure now b =
    let count = b.failure_count + 1 in
    record b {
      failure_count = count;
      last_failure_time = now;
      state = if leb b.failure_threshold count then opened else b.state;
    }

unfoldable pub reset : CircuitBreaker → CircuitBreaker
reset b = record b { state = closed; failure_count = 0 }

pub record Status : Type 0 where
  pub state : CircuitState
  pub failure_count : ℕ
  pub failure_threshold : ℕ
  pub recovery_timeout_sec : ℕ
  pub last_failure_age_sec : Option ℤ

-- `get_status` reads `_state` itself, not the property. The age is given in ticks.
unfoldable pub get_status : ℕ → CircuitBreaker → Status
get_status now b = record {
  state = b.state;
  failure_count = b.failure_count;
  failure_threshold = b.failure_threshold;
  recovery_timeout_sec = b.recovery_timeout;
  last_failure_age_sec =
      if ltb 0 b.last_failure_time then some (sub_ℕ now b.last_failure_time) else none;
}
