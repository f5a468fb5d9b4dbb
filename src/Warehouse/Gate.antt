-- ===== src/Warehouse/Gate.antt =====
-- backend/warehouse_gate.py: the semaphore of warehouse slots, its counters, and the breaker that
-- a statement's outcome drives. A wait is a number of clock ticks.
pub mod Steps
pub mod Alone
use bricktrace.Prelude.{
  ℕ, zero, suc, ◌+◌, ◌-◌, Bool, true, false, Option, none, some, eqb, if◌then◌else◌,
}
use bricktrace.Prelude.Int.{ℤ, pos, incr, decr, ltb_ℤ}
use bricktrace.Warehouse.Breaker
use bricktrace.Warehouse.Breaker.{CircuitBreaker, check, record_success, record_failure}

pub record Stats : Type 0 where
  pub admitted : ℕ
  pub shed : ℕ
  pub in_flight : ℤ
  pub peak_in_flight : ℤ
  pub total_wait : ℕ

abbrev pub no_stats : Stats
no_stats = record {
  admitted = 0;
  shed = 0;
  in_flight = pos 0;
  peak_in_flight = pos 0;
  total_wait = 0;
}

-- The globals of the module: `_slots` with its free permits, `_stats`, and the shared breaker.
pub record Gate : Type 0 where
  pub max_concurrent : ℕ
  pub free : ℕ
  pub stats : Stats
  pub breaker : CircuitBreaker

unfoldable pub init : ℕ → CircuitBreaker → Gate
init max_concurrent breaker = record {
  max_concurrent = max_concurrent;
  free = max_concurrent;
  stats = no_stats;
  breaker = breaker;
}

unfoldable pub reset_stats : Gate → Gate
reset_stats g = record g { stats = no_stats }

-- How `__enter__` ends: with the slot, with the breaker's 503, or with `WarehouseBusyError`.
pub data Entry : Type 0 where
  entered unavailable busy : Entry

count_shed : Stats → Stats
count_shed s = record s { shed = s.shed + 1 }

count_admitted : ℕ → Stats → Stats
count_admitted waited s =
    let flying = incr s.in_flight in
    record s {
      admitted = s.admitted + 1;
      total_wait = s.total_wait + waited;
      in_flight = flying;
      peak_in_flight = if ltb_ℤ s.peak_in_flight flying then flying else s.peak_in_flight;
    }

-- The pieces of `__enter__` and `__exit__`: each is one operation of the semaphore, one section
-- under the lock of the counters, or one call of the breaker. Other threads may run between them,
-- which Gate/Steps follows.
unfoldable pub acquire : Gate → Gate
acquire g = record g { free = g.free - 1 }

unfoldable pub shed_one : Gate → Gate
unfolding count_shed
shed_one g = record g { stats = count_shed g.stats }

unfoldable pub admit_one : ℕ → Gate → Gate
unfolding count_admitted
admit_one waited g = record g { stats = count_admitted waited g.stats }

unfoldable pub uncount : Gate → Gate
uncount g = record g { stats = record (g.stats) { in_flight = decr (g.stats.in_flight) } }

unfoldable pub release : Gate → Gate
release g = record g { free = g.free + 1 }

-- The acquire that ends after `waited`: it fails when no permit is free by then.
take_slot : ℕ → Gate → Gate × Entry
unfolding acquire shed_one admit_one
take_slot waited g =
    if eqb g.free 0 then (shed_one g, busy) else (admit_one waited (acquire g), entered)

after_check : ℕ → Gate → Option Breaker.Failure → Gate × Entry
unfolding take_slot
after_check waited g (some e) = (g, unavailable)
after_check waited g none = take_slot waited g

-- `__enter__` of a thread that runs alone, which reads the clock at `now` for the breaker.
unfoldable pub enter : ℕ → ℕ → Gate → Gate × Entry
unfolding after_check
enter now waited g =
    let (b, refused) = check now g.breaker in after_check waited (record g { breaker = b }) refused

-- How the body of the `with` block ends; a failure is recorded at a clock reading.
pub data Outcome : Type 0 where
  returned : Outcome
  raised_busy : Outcome
  raised : ℕ → Outcome

record_outcome : Outcome → CircuitBreaker → CircuitBreaker
record_outcome returned b = record_success b
record_outcome raised_busy b = b
record_outcome (raised now) b = record_failure now b

unfoldable pub report : Outcome → Gate → Gate
unfolding record_outcome
report o g = record g { breaker = record_outcome o g.breaker }

-- `__exit__` of a slot that is held, of a thread that runs alone.
unfoldable pub exit : Outcome → Gate → Gate
unfolding uncount release report
exit o g = report o (release (uncount g))
