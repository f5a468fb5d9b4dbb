-- ===== src/Warehouse/Gate/Steps.antt =====
-- Threads at the gate of backend/warehouse_gate.py: any interleaving of the pieces of their entries
-- and exits, of resets of the counters, and of other users of the breaker. Threads in one phase are
-- alike, so a phase is the number of threads in it.
use bricktrace.Prelude.{ℕ, ◌+◌, ◌-◌, ◌≤◌, ◌<◌, ◌≡◌, none, some, arith}
use bricktrace.Prelude.Int.{pos, incr, decr, sub_ℕ, ◌≤ℤ◌}
use bricktrace.Warehouse.Breaker
use bricktrace.Warehouse.Breaker.{CircuitBreaker, check}
use bricktrace.Warehouse.Breaker.Laws.{Call, call}
use bricktrace.Warehouse.Gate.{
  Gate, init, reset_stats, acquire, shed_one, admit_one, uncount, release, Outcome, report,
}

-- The gate and the threads: `checked` ones wait for a permit; `timed_out` ones are about to be
-- counted as shed; `acquired` ones hold a permit and are not yet counted; `counted` ones are counted
-- and hold a permit; `uncounted` ones still hold it and are no longer counted; `reporting` ones gave
-- it back and are about to report to the breaker. `forgotten` is the number of counted threads at
-- the last reset of the counters, 0 before any; no step reads it.
pub record World : Type 0 where
  pub gate : Gate
  pub checked : ℕ
  pub timed_out : ℕ
  pub acquired : ℕ
  pub counted : ℕ
  pub uncounted : ℕ
  pub reporting : ℕ
  pub forgotten : ℕ

-- The threads that hold a permit.
abbrev pub held : World → ℕ
held w = w.acquired + w.counted + w.uncounted

abbrev pub checking : ℕ → Gate → Gate
checking now g = record g { breaker = (check now g.breaker).0 }

pub data Step (w : World) : World → Type 0 where
  is_let_by :
      (now : ℕ)
      → (check now w.gate.breaker).1 ≡ none
      → Step w (record w { gate = checking now w.gate; checked = w.checked + 1 })
  is_refused :
      (now : ℕ) (e : Breaker.Failure)
      → (check now w.gate.breaker).1 ≡ some e
      → Step w (record w { gate = checking now w.gate })
  acquires :
      0 < w.checked
      → 0 < w.gate.free
      → Step w
          (record w { gate = acquire w.gate; checked = w.checked - 1; acquired = w.acquired + 1 })
  times_out :
      0 < w.checked
      → w.gate.free ≡ 0
      → Step w (record w { checked = w.checked - 1; timed_out = w.timed_out + 1 })
  is_shed :
      0 < w.timed_out → Step w (record w { gate = shed_one w.gate; timed_out = w.timed_out - 1 })
  is_counted :
      (waited : ℕ)
      → 0 < w.acquired
      → Step w (record w {
        gate = admit_one waited w.gate;
        acquired = w.acquired - 1;
        counted = w.counted + 1;
      })
  is_uncounted :
      0 < w.counted
      → Step w
          (record w { gate = uncount w.gate; counted = w.counted - 1; uncounted = w.uncounted + 1 })
  releases :
      0 < w.uncounted
      → Step w (record w {
        gate = release w.gate;
        uncounted = w.uncounted - 1;
        reporting = w.reporting + 1;
      })
  reports :
      (o : Outcome)
      → 0 < w.reporting
      → Step w (record w { gate = report o w.gate; reporting = w.reporting - 1 })
  breaker_used :
      (c : Call) → Step w (record w { gate = record w.gate { breaker = call c w.gate.breaker } })
  resets : Step w (record w { gate = reset_stats w.gate; forgotten = w.counted })

pub data Reach (w : World) : World → Type 0 where
  here : Reach w w
  next : {u v : World} → Reach w u → Step u v → Reach w v

-- Every permit is either free or held, and the gauge is off by what a reset forgot.
pub record IsBalanced (m : ℕ) (w : World) : Type 0 where
  pub size : w.gate.max_concurrent ≡ m
  pub permits : w.gate.free + held w ≡ m
  pub flying : w.gate.stats.in_flight ≡ sub_ℕ w.counted w.forgotten
  pub above : w.gate.stats.in_flight ≤ℤ w.gate.stats.peak_in_flight
  pub below : w.gate.stats.peak_in_flight ≤ℤ pos m

Step-IsBalanced : {m : ℕ} {w u : World} → Step w u → IsBalanced m w → IsBalanced m u
unfolding acquire shed_one admit_one uncount release report reset_stats incr decr
Step-IsBalanced (is_let_by now e) h = ground arith
Step-IsBalanced (is_refused now f e) h = ground arith
Step-IsBalanced (acquires c f) h = ground arith
Step-IsBalanced (times_out c f) h = ground arith
Step-IsBalanced (is_shed p) h = ground arith
Step-IsBalanced (is_counted waited p) h = ground arith
Step-IsBalanced (is_uncounted p) h = ground arith
Step-IsBalanced (releases p) h = ground arith
Step-IsBalanced (reports o p) h = ground arith
Step-IsBalanced (breaker_used c) h = ground arith
Step-IsBalanced resets h = ground arith

Reach-IsBalanced : {m : ℕ} {w u : World} → IsBalanced m w → Reach w u → IsBalanced m u
Reach-IsBalanced h here = h
Reach-IsBalanced h (next r s) = Step-IsBalanced s (Reach-IsBalanced h r)

abbrev pub start : ℕ → CircuitBreaker → World
start m b = record {
  gate = init m b;
  checked = 0;
  timed_out = 0;
  acquired = 0;
  counted = 0;
  uncounted = 0;
  reporting = 0;
  forgotten = 0;
}

start-IsBalanced : (m : ℕ) (b : CircuitBreaker) → IsBalanced m (start m b)
unfolding init
start-IsBalanced m b = ground arith

-- From a new gate, in every interleaving of the pieces of entries and exits of any number of
-- threads, with resets of the counters and other uses of the breaker among them: no more threads
-- hold a permit than the gate was made for, and the free permits and the holders add up to that
-- size; `in_flight` is the number of counted threads less `forgotten`, that number at the last reset;
-- and `peak_in_flight` lies between `in_flight` and the size.
pub admission_bounded :
    (m : ℕ) (b : CircuitBreaker) {w : World} → Reach (start m b) w → IsBalanced m w × (held w ≤ m)
admission_bounded m b r =
    let h = Reach-IsBalanced (start-IsBalanced m b) r in (h, omega (arith, h.permits))
