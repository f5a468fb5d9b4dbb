-- ===== src/Warehouse/Breaker/Laws.antt =====
-- What the circuit breaker guarantees along any sequence of calls.
use bricktrace.Prelude.{
  ℕ, ◌+◌, ◌≤◌, ◌<◌, ◌≡◌, ◌↔◌, some, List, [], ◌∷◌, arith, length, leb, if◌then◌else◌,
}
use bricktrace.Warehouse.Breaker.{
  CircuitBreaker, CircuitState, closed, opened, half_open, service_unavailable, init, read_state,
  check, record_success, record_failure, reset,
}

-- The calls of the breaker's methods, each with the clock reading it makes.
pub data Call : Type 0 where
  checks : ℕ → Call
  succeeds : Call
  fails : ℕ → Call
  resets : Call

unfoldable pub call : Call → CircuitBreaker → CircuitBreaker
call (checks now) b = (check now b).0
call succeeds b = record_success b
call (fails now) b = record_failure now b
call resets b = reset b

unfoldable pub run : List Call → CircuitBreaker → CircuitBreaker
run [] b = b
run (c ∷ cs) b = run cs (call c b)

-- The count is below the threshold exactly while the circuit is closed.
abbrev pub CountFits : CircuitState → ℕ → ℕ → Type 0
CountFits closed count threshold = count < threshold
CountFits opened count threshold = threshold ≤ count
CountFits half_open count threshold = threshold ≤ count

pub record IsCoherent (b : CircuitBreaker) : Type 0 where
  pub positive : 0 < b.failure_threshold
  pub fits : CountFits b.state b.failure_count b.failure_threshold

pub call-IsCoherent : (c : Call) (b : CircuitBreaker) → IsCoherent b → IsCoherent (call c b)
unfolding call check read_state record_success record_failure reset
call-IsCoherent (checks now) b h = ground arith
call-IsCoherent succeeds b h = ground arith
call-IsCoherent (fails now) b h = ground arith
call-IsCoherent resets b h = ground arith

pub run-IsCoherent : (cs : List Call) (b : CircuitBreaker) → IsCoherent b → IsCoherent (run cs b)
unfolding run
run-IsCoherent [] b h = h
run-IsCoherent (c ∷ cs) b h = run-IsCoherent cs (call c b) (call-IsCoherent c b h)

-- Whatever methods are called in whatever order, a breaker made with a positive threshold is
-- closed exactly while its failure count is below the threshold.
pub run-init-IsCoherent :
    (threshold timeout : ℕ) (cs : List Call)
    → 0 < threshold
    → IsCoherent (run cs (init threshold timeout))
unfolding init
run-init-IsCoherent threshold timeout cs h =
    run-IsCoherent cs (init threshold timeout) (record { positive = h; fits = h })

-- `check` raises exactly when the circuit is open and its recovery time has not passed.
pub check-refuses_iff :
    (now : ℕ) (b : CircuitBreaker)
    → ((check now b).1 ≡ some service_unavailable)
      ↔ ((b.state ≡ opened) × (now < b.last_failure_time + b.recovery_timeout))
unfolding check read_state
check-refuses_iff now b = (λ h. ground arith, λ h. ground arith)

-- A refusal needs `failure_threshold` failures: after `n` failures in a row on a new breaker the
-- circuit is open exactly when `n` has reached the threshold.
pub fails_in_a_row : List ℕ → CircuitBreaker → CircuitBreaker
fails_in_a_row [] b = b
fails_in_a_row (now ∷ rest) b = fails_in_a_row rest (record_failure now b)

opened_test : ℕ → ℕ → CircuitState
opened_test threshold count = if leb threshold count then opened else closed

state-fails :
    (times : List ℕ) (b : CircuitBreaker)
    → b.state ≡ opened_test b.failure_threshold b.failure_count
    → (fails_in_a_row times b).state
      ≡ opened_test b.failure_threshold (b.failure_count + length times)
unfolding fails_in_a_row opened_test record_failure
state-fails [] b h = ground arith
state-fails (now ∷ rest) b h =
    ground (arith, state-fails rest (record_failure now b) (ground arith))

pub opens_at_threshold :
    (threshold timeout : ℕ) (times : List ℕ)
    → 0 < threshold
    → ((fails_in_a_row times (init threshold timeout)).state ≡ opened) ↔ (threshold ≤ length times)
unfolding init opened_test
opens_at_threshold threshold timeout times h =
    ground (arith, state-fails times (init threshold timeout) (ground arith))

-- On a coherent breaker that probes, one failure opens the circuit again, and then every check
-- before the recovery time has passed is refused.
pub failed_probe_reopens :
    (b : CircuitBreaker) (now later : ℕ)
    → IsCoherent b
    → b.state ≡ half_open
    → later < now + b.recovery_timeout
    → (check later (record_failure now b)).1 ≡ some service_unavailable
unfolding check read_state record_failure
failed_probe_reopens b now later h e l = ground arith
